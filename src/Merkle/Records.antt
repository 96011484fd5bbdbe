-- ===== src/Merkle/Records.antt =====
-- The root of a page commits to its entries.
use trustbridge_contract.Base.{
  ℕ, suc, ◌≡◌, ◌⊎◌, inl, inr, refl, sym, ◌∙◌, ap, Bool, List, [], ◌∷◌, length, arith, ⊤, Lacks,
  split_at, cancel, snoc_cancel,
}
use trustbridge_contract.Username.{Username}
use trustbridge_contract.Types.{Address, ContributorRecord}
use trustbridge_contract.Merkle.{
  Digest, leaf_hash, leaf_bytes, leaf_domain, leaves_of, root_of_records, field_separator,
  flag_byte,
}
use trustbridge_contract.Merkle.Binding.{
  Collision, Sized, same_text, same_head, same_tail, root_of-binds,
}

-- What a reader of the page learns of an entry.
abbrev pub entries :
    (Address → List ℕ) → List (Username × ContributorRecord) → List (Username × List ℕ × Bool)
entries text [] = []
entries text ((u, c) ∷ rest) = (u, text c.stellar_address, c.verified) ∷ entries text rest

-- No name of the page has the separator in it.
abbrev pub Separable : List (Username × ContributorRecord) → Type 0
Separable [] = ⊤
Separable ((u, c) ∷ rest) = Lacks field_separator u × Separable rest

flag_same : (a b : Bool) → flag_byte a ≡ flag_byte b → a ≡ b
flag_same a b e = ground (arith, e)

module _ (sha256 : List ℕ → Digest) (text : Address → List ℕ) where
  same_leaf :
      (u v : Username) (a b : List ℕ) (x y : Bool)
      → Lacks field_separator u
      → Lacks field_separator v
      → leaf_hash sha256 u a x ≡ leaf_hash sha256 v b y
      → ((u ≡ v) × (a ≡ b) × (x ≡ y)) ⊎ Collision sha256
  unfolding leaf_hash leaf_bytes
  same_leaf u v a b x y h k e = elim (same_text sha256 _ _ e) [
    | inl same ↦
        let (names, rest) =
          split_at field_separator u _ v _ h k (cancel leaf_domain leaf_domain _ _ refl same).1 in
        let (addresses, flags) = snoc_cancel a b _ _ rest in
        inl (names, addresses, flag_same x y flags)
    | inr c ↦ inr c
  ]

  same_leaves :
      (xs ys : List (Username × ContributorRecord))
      → Separable xs
      → Separable ys
      → leaves_of sha256 text xs ≡ leaves_of sha256 text ys
      → (entries text xs ≡ entries text ys) ⊎ Collision sha256
  unfolding leaves_of
  same_leaves [] [] h k e = inl refl
  same_leaves [] (y ∷ ys) h k e = absurd (cc)
  same_leaves (x ∷ xs) [] h k e = absurd (cc)
  same_leaves ((u, c) ∷ xs) ((v, d) ∷ ys) h k e =
      elim (same_leaf u v (text c.stellar_address) (text d.stellar_address) c.verified d.verified
        h.0 k.0 (same_head e)) [
          | inl (p, q, r) ↦ elim (same_leaves xs ys h.1 k.1 (same_tail e)) [
            | inl rest ↦ inl cc
            | inr clash ↦ inr clash
          ]
          | inr clash ↦ inr clash
        ]

  length-leaves :
      (xs : List (Username × ContributorRecord)) → length (leaves_of sha256 text xs) ≡ length xs
  unfolding leaves_of
  length-leaves [] = refl
  length-leaves ((u, c) ∷ xs) = ap suc (length-leaves xs)

  module _ (h32 : (b : List ℕ) → length (sha256 b) ≡ 32) where
    Sized-leaves : (xs : List (Username × ContributorRecord)) → Sized (leaves_of sha256 text xs)
    unfolding leaves_of leaf_hash
    Sized-leaves [] = tt
    Sized-leaves ((u, c) ∷ xs) = (h32 _, Sized-leaves xs)

    -- Two pages of the same length, in whose names the separator does not occur, have the same
    -- Merkle root only if their entries agree in name, text of the address and verified flag, in
    -- order, or else two different texts with one hash are exhibited. The hash has 32 bytes.
    pub root_of_records-binds :
        (xs ys : List (Username × ContributorRecord))
        → Separable xs
        → Separable ys
        → length xs ≡ length ys
        → root_of_records sha256 text xs ≡ root_of_records sha256 text ys
        → (entries text xs ≡ entries text ys) ⊎ Collision sha256
    unfolding root_of_records
    root_of_records-binds xs ys h k l e =
        elim (root_of-binds sha256 h32 _ _ (Sized-leaves xs) (Sized-leaves ys)
          (length-leaves xs ∙ l ∙ sym (length-leaves ys)) e) [
            | inl same ↦ same_leaves xs ys h k same
            | inr clash ↦ inr clash
          ]
