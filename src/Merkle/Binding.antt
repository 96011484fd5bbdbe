-- ===== src/Merkle/Binding.antt =====
-- The root of src/merkle.rs as a commitment to the leaves.
use trustbridge_contract.Base.{
  ℕ, zero, suc, ◌≡◌, ◌≢◌, ◌∙◌, ◌⊎◌, inl, inr, refl, sym, ap, some, List, [], ◌∷◌, length, arith, ⊤,
  bytes_eq, bytes_eq_iff, Bool-cases, some_eq, cancel,
}
use trustbridge_contract.Merkle.Total.{root_of-climb}
use trustbridge_contract.Merkle.{
  Digest, next_level, climb, root_of, node_hash, node_bytes, node_domain,
}

-- Two texts with one hash.
pub record Collision (sha256 : List ℕ → Digest) : Type 0 where
  pub left : List ℕ
  pub right : List ℕ
  pub differ : left ≢ right
  pub collide : sha256 left ≡ sha256 right

-- All digests have 32 bytes.
abbrev pub Sized : List Digest → Type 0
Sized [] = ⊤
Sized (d ∷ ds) = (length d ≡ 32) × Sized ds

module _ {A : Type 0} {x y : A} {xs ys : List A} where
  pub same_head : (x ∷ xs) ≡ (y ∷ ys) → x ≡ y
  same_head e = cc

  pub same_tail : (x ∷ xs) ≡ (y ∷ ys) → xs ≡ ys
  same_tail e = cc

module _ (sha256 : List ℕ → Digest) where
  pub same_text : (xs ys : List ℕ) → sha256 xs ≡ sha256 ys → (xs ≡ ys) ⊎ Collision sha256
  same_text xs ys e = elim (Bool-cases (bytes_eq xs ys)) [
    | inl same ↦ inl ((bytes_eq_iff xs ys).0 same)
    | inr other ↦ inr (record {
      left = xs;
      right = ys;
      differ = λ p. ground (arith, other, (bytes_eq_iff xs ys).1 p);
      collide = e;
    })
  ]

  -- Equal nodes have equal children.
  same_node :
      (l r l' r' : Digest)
      → length l ≡ 32
      → length l' ≡ 32
      → node_hash sha256 l r ≡ node_hash sha256 l' r'
      → ((l ≡ l') × (r ≡ r')) ⊎ Collision sha256
  unfolding node_hash node_bytes
  same_node l r l' r' h h' e = elim (same_text _ _ e) [
    | inl same ↦
        inl (cancel l l' r r' (h ∙ sym h') (cancel node_domain node_domain _ _ refl same).1)
    | inr c ↦ inr c
  ]

  same_length :
      (xs ys : List Digest)
      → length xs ≡ length ys
      → length (next_level sha256 xs) ≡ length (next_level sha256 ys)
  unfolding next_level
  same_length [] [] l = refl
  same_length [] (y ∷ ys) l = absurd (omega (arith, l))
  same_length (x ∷ xs) [] l = absurd (omega (arith, l))
  same_length (x ∷ []) (y ∷ []) l = refl
  same_length (x ∷ []) (y ∷ y' ∷ ys) l = absurd (omega (arith, l))
  same_length (x ∷ x' ∷ xs) (y ∷ []) l = absurd (omega (arith, l))
  same_length (x ∷ x' ∷ xs) (y ∷ y' ∷ ys) l = ap suc (same_length xs ys (omega (arith, l)))

  same_level :
      (xs ys : List Digest)
      → Sized xs
      → Sized ys
      → length xs ≡ length ys
      → next_level sha256 xs ≡ next_level sha256 ys
      → (xs ≡ ys) ⊎ Collision sha256
  unfolding next_level
  same_level [] [] h k l e = inl refl
  same_level [] (y ∷ ys) h k l e = absurd (omega (arith, l))
  same_level (x ∷ xs) [] h k l e = absurd (omega (arith, l))
  same_level (x ∷ []) (y ∷ []) h k l e = inl e
  same_level (x ∷ []) (y ∷ y' ∷ ys) h k l e = absurd (omega (arith, l))
  same_level (x ∷ x' ∷ xs) (y ∷ []) h k l e = absurd (omega (arith, l))
  same_level (x ∷ x' ∷ xs) (y ∷ y' ∷ ys) h k l e =
      elim (same_node x x' y y' h.0 k.0 (same_head e)) [
        | inl (p, q) ↦ elim (same_level xs ys h.1.1 k.1.1 (omega (arith, l)) (same_tail e)) [
          | inl r ↦ inl cc
          | inr c ↦ inr c
        ]
        | inr c ↦ inr c
      ]

  module _ (h32 : (b : List ℕ) → length (sha256 b) ≡ 32) where
    Sized-next_level : (xs : List Digest) → Sized xs → Sized (next_level sha256 xs)
    unfolding next_level node_hash
    Sized-next_level [] h = tt
    Sized-next_level (x ∷ []) h = h
    Sized-next_level (x ∷ y ∷ xs) h = (h32 _, Sized-next_level xs h.1.1)

    same_climb :
        (fuel : ℕ) (xs ys : List Digest) (root : Digest)
        → Sized xs
        → Sized ys
        → length xs ≡ length ys
        → climb sha256 fuel xs ≡ some root
        → climb sha256 fuel ys ≡ some root
        → (xs ≡ ys) ⊎ Collision sha256
    unfolding climb
    same_climb fuel [] ys root h k l e f = absurd (cc)
    same_climb fuel (x ∷ xs) [] root h k l e f = absurd (omega (arith, l))
    same_climb fuel (x ∷ []) (y ∷ []) root h k l e f = inl cc
    same_climb fuel (x ∷ []) (y ∷ y' ∷ ys) root h k l e f = absurd (omega (arith, l))
    same_climb fuel (x ∷ x' ∷ xs) (y ∷ []) root h k l e f = absurd (omega (arith, l))
    same_climb zero (x ∷ x' ∷ xs) (y ∷ y' ∷ ys) root h k l e f = absurd (cc)
    same_climb (suc fuel) (x ∷ x' ∷ xs) (y ∷ y' ∷ ys) root h k l e f =
        elim (same_climb fuel (next_level sha256 (x ∷ x' ∷ xs)) (next_level sha256 (y ∷ y' ∷ ys))
          root (Sized-next_level _ h) (Sized-next_level _ k) (same_length _ _ l) e f) [
            | inl same ↦ same_level _ _ h k l same
            | inr c ↦ inr c
          ]

    pub root_of-binds :
        (xs ys : List Digest)
        → Sized xs
        → Sized ys
        → length xs ≡ length ys
        → root_of sha256 xs ≡ root_of sha256 ys
        → (xs ≡ ys) ⊎ Collision sha256
    root_of-binds [] [] h k l e = inl refl
    root_of-binds [] (y ∷ ys) h k l e = absurd (omega (arith, l))
    root_of-binds (x ∷ xs) [] h k l e = absurd (omega (arith, l))
    root_of-binds (x ∷ xs) (y ∷ ys) h k l e =
        let (r, is, ends) = root_of-climb sha256 (x ∷ xs) (length xs) (omega arith) (λ p. cc) in
        let (r', is', ends') =
          root_of-climb sha256 (y ∷ ys) (length xs) (omega (arith, l)) (λ p. cc) in
        let same : r ≡ r' = some_eq r r' (sym is ∙ e ∙ is') in
        same_climb (length xs) (x ∷ xs) (y ∷ ys) r' h k l (ends ∙ ap some same) ends'
