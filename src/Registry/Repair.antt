-- ===== src/Registry/Repair.antt =====
-- Compaction of the chunks and repair of the counters.
use trustbridge_contract.Base.{
  ℕ, zero, suc, ◌+◌, ◌≡◌, ◌≤◌, ◌∙◌, refl, sym, ap, Bool, true, false, some, List, [], ◌∷◌, ◌++◌,
  arith, length, leb, is_some, u32_max, saturating_add_u32, Bool-cases, inl, inr, if◌then◌else◌,
  Option-cases, bytes_eq_refl,
}
use mathlib.Core.List.{append-nil, append_assoc}
use trustbridge_contract.Username.{Username}
use trustbridge_contract.NameList.{mentions, Distinct}
use trustbridge_contract.Types.State.{Registry, put_id}
use trustbridge_contract.Registry.{
  write_chunks, drop_stale, compact_chunked_index, recount, repair_index, get_record, canon,
  chunk_size,
}
use trustbridge_contract.Registry.Chunks.{joined, joined-put_new, joined-put_above}
use trustbridge_contract.Registry.Verified.{count_verified}
use trustbridge_contract.Registry.Coherent.{Coherent, AllCanonical}

abbrev Chunks : Type 0
Chunks = ℕ → List Username

regroup :
    (j a us j' : List Username) (u : Username)
    → j' ≡ j ++ (a ++ u ∷ [])
    → j' ++ [] ++ us ≡ j ++ a ++ u ∷ us
regroup j a us j' u h =
    ground (arith, append-nil j', append_assoc j a (u ∷ []), append_assoc (j ++ a) (u ∷ []) us)

regroup_room : (j a us : List Username) (u : Username) → j ++ (a ++ u ∷ []) ++ us ≡ j ++ a ++ u ∷ us
regroup_room j a us u = ground (arith, append_assoc j a (u ∷ []), append_assoc (j ++ a) (u ∷ []) us)

joined-write_chunks :
    (us current : List Username) (c : ℕ) (chunks : Chunks)
    → joined (write_chunks us current c chunks).0 0 (write_chunks us current c chunks).1
      ≡ joined chunks 0 c ++ current ++ us
unfolding write_chunks
joined-write_chunks [] [] c chunks = ground (arith, append-nil (joined chunks 0 c))
joined-write_chunks [] (v ∷ vs) c chunks = rw append-nil (joined-put_new chunks c (v ∷ vs))
joined-write_chunks (u ∷ us) current c chunks =
    elim (Bool-cases (leb chunk_size (length (current ++ u ∷ [])))) [
      | inl full ↦
          rw (write_chunks, full)
            (joined-write_chunks us [] (c + 1) (put_id c (current ++ u ∷ []) chunks)
              ∙ regroup (joined chunks 0 c) current us _ u
                  (joined-put_new chunks c (current ++ u ∷ [])))
      | inr room ↦
          rw (write_chunks, room)
            (joined-write_chunks us (current ++ u ∷ []) c chunks
              ∙ regroup_room (joined chunks 0 c) current us u)
    ]

joined-drop_stale :
    (n c k : ℕ) (chunks : Chunks) → k ≤ c → joined (drop_stale n c chunks) 0 k ≡ joined chunks 0 k
unfolding drop_stale
joined-drop_stale zero c k chunks h = refl
joined-drop_stale (suc n) c k chunks h =
    joined-drop_stale n (c + 1) k (put_id c [] chunks) (omega arith)
    ∙ joined-put_above chunks c 0 k [] (omega arith)

-- Compacting the chunked index of a coherent registry gives a coherent registry: the rewritten
-- chunks, joined, are the flat index.
pub compact-Coherent : (r : Registry) → Coherent r → Coherent (compact_chunked_index r)
unfolding compact_chunked_index joined
compact-Coherent r h = record {
  indexed = h.indexed;
  distinct = h.distinct;
  canonical = h.canonical;
  chunked =
      joined-drop_stale _ _ _ _ (omega arith)
      ∙ joined-write_chunks r.index [] 0 r.chunks
      ∙ ground arith;
  counted = h.counted;
  verified_counted = h.verified_counted;
}

-- The recount of a list of stored names is its length and the number of verified ones.
recount_lem :
    (r : Registry) (us : List Username) (n v : ℕ)
    → AllCanonical us
    → ((u : Username) → mentions u us ≡ true → is_some (r.records u) ≡ true)
    → n + length us ≤ u32_max
    → v ≤ n
    → recount r us (n, v) ≡ (n + length us, v + count_verified r.records us)
unfolding recount mentions get_record count_verified
recount_lem r [] n v can all fits le = ground arith
recount_lem r (u ∷ us) n v can all fits le = elim (Option-cases (r.records u)) [
  | inl missing ↦ absurd (ground (arith, all u, missing, bytes_eq_refl u))
  | inr (c, stored) ↦
      let e : r.records (canon u) ≡ some c = ap r.records can.0 ∙ stored in
      rw e (
        recount_lem r us (saturating_add_u32 n 1) (if c.verified then saturating_add_u32 v 1 else v)
          can.1 (λ w m. all w (ground arith)) (omega arith) (ground arith)
        ∙ ground (arith, stored))
]

-- On a coherent registry whose count fits u32 the repair reports no drift and changes nothing,
-- applied or not.
pub repair_index-no_drift :
    (apply : Bool) (r : Registry)
    → Coherent r
    → r.count ≤ u32_max
    → ((repair_index apply r).0.drifted ≡ false) × ((repair_index apply r).1 ≡ r)
unfolding repair_index
repair_index-no_drift apply r h fits =
    let counts =
      recount_lem r r.index 0 0 h.canonical (λ u m. sym (h.indexed u) ∙ m)
        (omega (arith, h.counted)) (omega arith) in
    ground (arith, counts, h.counted, h.verified_counted)

-- Whatever the counters hold, a repair that is applied to coherent indexes makes the registry coherent.
pub record Listed (r : Registry) : Type 0 where
  pub indexed : (u : Username) → mentions u r.index ≡ is_some (r.records u)
  pub distinct : Distinct r.index
  pub canonical : AllCanonical r.index
  pub chunked : joined r.chunks 0 r.chunk_count ≡ r.index

-- Where the indexes are right, list at most the largest u32 of names, and only the counters may be
-- wrong, an applied repair makes the registry coherent.
pub repair_index-Coherent :
    (r : Registry) → Listed r → length r.index ≤ u32_max → Coherent (repair_index true r).1
unfolding repair_index
repair_index-Coherent r h fits =
    let counts =
      recount_lem r r.index 0 0 h.canonical (λ u m. sym (h.indexed u) ∙ m) (omega arith)
        (omega arith) in
    record {
      indexed = ground (arith, h.indexed);
      distinct = ground (arith, h.distinct);
      canonical = ground (arith, h.canonical);
      chunked = ground (arith, h.chunked);
      counted = ground (arith, counts);
      verified_counted = ground (arith, counts);
    }
