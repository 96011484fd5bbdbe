-- ===== src/Registry/Chunks.antt =====
-- The chunked index holds the flat index, cut into chunks.
use trustbridge_contract.Base.{
  ℕ, zero, suc, ◌+◌, ◌-◌, ◌≡◌, ◌≤◌, ◌<◌, ◌∙◌, refl, ap, List, [], ◌∷◌, ◌++◌, arith, Bool-cases, inl,
  inr,
}
use trustbridge_contract.Username.{Username}
use trustbridge_contract.NameList.{
  mentions, without, Distinct, without-append, without_absent, Distinct-append_right,
  Distinct-append_apart,
}
use trustbridge_contract.Types.State.{put_id}
use trustbridge_contract.Registry.{remove_from_chunks}
use mathlib.Core.List.{append-nil, append_assoc}

-- `n` chunks from number `c`, one after the other.
unfoldable pub joined : (ℕ → List Username) → ℕ → ℕ → List Username
joined chunks c zero = []
joined chunks c (suc n) = chunks c ++ joined chunks (c + 1) n

-- A write below or above the range is not seen.
joined-put_below :
    (chunks : ℕ → List Username) (i c n : ℕ) (v : List Username)
    → i < c
    → joined (put_id i v chunks) c n ≡ joined chunks c n
unfolding joined
joined-put_below chunks i c zero v h = refl
joined-put_below chunks i c (suc n) v h = ground (arith, joined-put_below chunks i (c + 1) n v)

pub joined-put_above :
    (chunks : ℕ → List Username) (i c n : ℕ) (v : List Username)
    → c + n ≤ i
    → joined (put_id i v chunks) c n ≡ joined chunks c n
unfolding joined
joined-put_above chunks i c zero v h = refl
joined-put_above chunks i c (suc n) v h = ground (arith, joined-put_above chunks i (c + 1) n v)

pub joined-snoc :
    (chunks : ℕ → List Username) (c n : ℕ)
    → joined chunks c (suc n) ≡ joined chunks c n ++ chunks (c + n)
unfolding joined
joined-snoc chunks c zero = let e : c + 0 ≡ c = omega arith in rw (e, append-nil)
joined-snoc chunks c (suc n) =
    let e : c + 1 + n ≡ c + suc n = omega arith in
    ap (λ rest. chunks c ++ rest) (joined-snoc chunks (c + 1) n) ∙ rw (e, append_assoc)

-- A new last chunk.
pub joined-put_new :
    (chunks : ℕ → List Username) (n : ℕ) (v : List Username)
    → joined (put_id n v chunks) 0 (n + 1) ≡ joined chunks 0 n ++ v
joined-put_new chunks n v =
    let e : n + 1 ≡ suc n = omega arith in
    let z : 0 + n ≡ n = omega arith in
    rw (e, joined-snoc, z, joined-put_above chunks n 0 n v (omega arith))
      (ap (λ w. joined chunks 0 n ++ w) (ground arith))

-- A longer last chunk.
pub joined-put_last :
    (chunks : ℕ → List Username) (n : ℕ) (t : Username)
    → 1 ≤ n
    → joined (put_id (n - 1) (chunks (n - 1) ++ t ∷ []) chunks) 0 n ≡ joined chunks 0 n ++ t ∷ []
joined-put_last chunks zero t h = absurd (omega arith)
joined-put_last chunks (suc n) t h =
    let e : suc n - 1 ≡ n = omega arith in
    let z : 0 + n ≡ n = omega arith in
    rw
      (
        e,
        joined-snoc,
        z,
        joined-snoc,
        z,
        joined-put_above chunks n 0 n (chunks n ++ t ∷ []) (omega arith),
      )
      (ground (arith, append_assoc (joined chunks 0 n) (chunks n) (t ∷ [])))

remove_from_chunks_below :
    (t : Username) (n c i : ℕ) (chunks : ℕ → List Username)
    → i < c
    → remove_from_chunks t n c chunks i ≡ chunks i
unfolding remove_from_chunks
remove_from_chunks_below t zero c i chunks h = refl
remove_from_chunks_below t (suc n) c i chunks h =
    ground (arith, remove_from_chunks_below t n (c + 1) i chunks)

-- The loop that stops at the first chunk with the name takes the name out of the joined chunks.
pub joined-remove :
    (t : Username) (n c : ℕ) (chunks : ℕ → List Username)
    → Distinct (joined chunks c n)
    → joined (remove_from_chunks t n c chunks) c n ≡ without t (joined chunks c n)
unfolding joined remove_from_chunks without
joined-remove t zero c chunks d = refl
joined-remove t (suc n) c chunks d = elim (Bool-cases (mentions t (chunks c))) [
  | inl found ↦ ground (
    arith,
    found,
    without-append t (chunks c) (joined chunks (c + 1) n),
    without_absent t (joined chunks (c + 1) n),
    Distinct-append_apart (chunks c) (joined chunks (c + 1) n) t d found,
    joined-put_below chunks c (c + 1) n (without t (chunks c)),
  )
  | inr missing ↦ ground (
    arith,
    missing,
    without-append t (chunks c) (joined chunks (c + 1) n),
    without_absent t (chunks c) missing,
    joined-remove t n (c + 1) chunks (Distinct-append_right (chunks c) (joined chunks (c + 1) n) d),
    remove_from_chunks_below t n (c + 1) c chunks,
  )
]
