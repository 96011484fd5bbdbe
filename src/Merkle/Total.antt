-- ===== src/Merkle/Total.antt =====
-- The climb ends: one unit of fuel for each leaf but the first is enough.
use trustbridge_contract.Base.{
  ℕ, zero, suc, ◌≤◌, ◌≡◌, ◌≢◌, ◌∙◌, refl, Option-cases, inl, inr, true, some, List, [], ◌∷◌, length,
  is_some, arith,
}
use trustbridge_contract.Merkle.{Digest, next_level, climb, root_of, node_hash, empty_root}

module _ (sha256 : List ℕ → Digest) where
  length-next_level : (rest : List Digest) → length (next_level sha256 rest) ≤ length rest
  unfolding next_level
  length-next_level [] = omega arith
  length-next_level (z ∷ []) = omega arith
  length-next_level (z ∷ w ∷ rest) = omega (arith, length-next_level rest)

  -- With enough fuel the loop ends, and more fuel changes nothing.
  climb_ends :
      (fuel more : ℕ) (x : Digest) (level : List Digest)
      → length level ≤ fuel
      → length level ≤ more
      → (is_some (climb sha256 fuel (x ∷ level)) ≡ true)
        × (climb sha256 more (x ∷ level) ≡ climb sha256 fuel (x ∷ level))
  unfolding climb next_level
  climb_ends fuel more x [] h k = (refl, refl)
  climb_ends zero more x (y ∷ rest) h k = absurd (omega arith)
  climb_ends (suc fuel) zero x (y ∷ rest) h k = absurd (omega arith)
  climb_ends (suc fuel) (suc more) x (y ∷ rest) h k =
      let shorter : length (next_level sha256 rest) ≤ length rest = length-next_level rest in
      climb_ends fuel more (node_hash sha256 x y) (next_level sha256 rest) (omega arith)
        (omega arith)

  -- For every nonempty list of leaves the loop over the levels ends with a root, and it gives that
  -- same root on any fuel that is at least the number of leaves less one.
  pub root_of-climb :
      (leaves : List Digest) (fuel : ℕ)
      → length leaves ≤ suc fuel
      → leaves ≢ []
      → (root : Digest) × (root_of sha256 leaves ≡ some root)
        × (climb sha256 fuel leaves ≡ some root)
  unfolding root_of
  root_of-climb [] fuel h e = absurd (e refl)
  root_of-climb (x ∷ rest) fuel h e =
      let (ends, same) = climb_ends (length rest) fuel x rest (omega arith) (omega arith) in
      elim (Option-cases (climb sha256 (length rest) (x ∷ rest))) [
        | inl out ↦ absurd (ground (arith, ends, out))
        | inr (root, is) ↦ (root, is, same ∙ is)
      ]

  -- There is a root for every list of leaves.
  pub root_of_ends : (leaves : List Digest) → (root : Digest) × (root_of sha256 leaves ≡ some root)
  unfolding root_of
  root_of_ends [] = (empty_root, refl)
  root_of_ends (x ∷ rest) =
      let (root, is, _) = root_of-climb (x ∷ rest) (length rest) (omega arith) (λ p. cc) in
      (root, is)
