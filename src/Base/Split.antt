-- ===== src/Base/Split.antt =====
-- Texts put together and taken apart.
use Prim.Native.Nat.{ℕ}
use mathlib.Core.Path.{◌≡◌, refl}
use mathlib.Core.Logic.{◌≢◌}
use mathlib.Core.List.{List, [], ◌∷◌, ◌++◌}
use native.Mathlib.Omega.{arith}
use trustbridge_contract.Base.Lists.{length}

-- The byte does not occur.
abbrev pub Lacks : ℕ → List ℕ → Type 0
Lacks b [] = Unit
Lacks b (x ∷ xs) = (x ≢ b) × Lacks b xs

-- What stands before the first separator, and after it.
pub split_at :
    (b : ℕ) (xs ys us vs : List ℕ)
    → Lacks b xs
    → Lacks b us
    → xs ++ (b ∷ ys) ≡ us ++ (b ∷ vs)
    → (xs ≡ us) × (ys ≡ vs)
split_at b [] ys [] vs h k e = ground (arith, e)
split_at b [] ys (u ∷ us) vs h k e = ground (arith, e, k.0)
split_at b (x ∷ xs) ys [] vs h k e = ground (arith, e, h.0)
split_at b (x ∷ xs) ys (u ∷ us) vs h k e = ground (arith, split_at b xs ys us vs h.1 k.1, e)

-- Two texts of one length.
pub cancel :
    (xs us ys vs : List ℕ) → length xs ≡ length us → xs ++ ys ≡ us ++ vs → (xs ≡ us) × (ys ≡ vs)
cancel [] [] ys vs l e = (refl, e)
cancel [] (u ∷ us) ys vs l e = absurd (omega (arith, l))
cancel (x ∷ xs) [] ys vs l e = absurd (omega (arith, l))
cancel (x ∷ xs) (u ∷ us) ys vs l e = ground (arith, cancel xs us ys vs (omega (arith, l)), e)

-- The last byte, and what stands before it.
pub snoc_cancel : (xs ys : List ℕ) (a b : ℕ) → xs ++ a ∷ [] ≡ ys ++ b ∷ [] → (xs ≡ ys) × (a ≡ b)
snoc_cancel [] [] a b e = ground (arith, e)
snoc_cancel [] (y ∷ []) a b e = ground (arith, e)
snoc_cancel [] (y ∷ y' ∷ ys) a b e = ground (arith, e)
snoc_cancel (x ∷ []) [] a b e = ground (arith, e)
snoc_cancel (x ∷ x' ∷ xs) [] a b e = ground (arith, e)
snoc_cancel (x ∷ xs) (y ∷ ys) a b e = ground (arith, snoc_cancel xs ys a b, e)
