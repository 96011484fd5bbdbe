-- ===== src/Paging/Slice.antt =====
-- A page of the flat index is a slice of it.
use trustbridge_contract.Base.{
  ℕ, zero, suc, ◌+◌, ◌-◌, ◌≤◌, ◌≡◌, ◌∙◌, refl, sym, ap, List, [], ◌∷◌, ◌++◌, length, take, drop,
  arith, min, leb, u32_max, Bool-cases, inl, inr, leb→le,
}
use trustbridge_contract.Types.State.{Registry}
use trustbridge_contract.Paging.{places, get_index_page, effective_limit, page_end}

module _ {A : Type 0} where
  places_nil : (n i : ℕ) → places {A = A} n i [] ≡ []
  unfolding places
  places_nil zero i = refl
  places_nil (suc n) i = places_nil n (i + 1)

  places_shift : (n i : ℕ) (x : A) (xs : List A) → places n (suc i) (x ∷ xs) ≡ places n i xs
  unfolding places
  places_shift zero i x xs = refl
  places_shift (suc n) i x xs = ground (arith, places_shift n (i + 1) x xs)

  places-slice : (n i : ℕ) (xs : List A) → places n i xs ≡ take n (drop i xs)
  unfolding places
  places-slice zero i xs = refl
  places-slice (suc n) zero [] = places_nil n 1
  places-slice (suc n) (suc i) [] = places_nil n (suc i + 1)
  places-slice (suc n) zero (x ∷ xs) = ap (λ l. x ∷ l) (places_shift n 0 x xs ∙ places-slice n 0 xs)
  places-slice (suc n) (suc i) (x ∷ xs) = places_shift (suc n) i x xs ∙ places-slice (suc n) i xs

  pub length-drop : (i : ℕ) (xs : List A) → length (drop i xs) ≡ length xs - i
  length-drop zero xs = omega arith
  length-drop (suc i) [] = omega arith
  length-drop (suc i) (x ∷ xs) = omega (arith, length-drop i xs)

  pub length-take : (n : ℕ) (xs : List A) → length (take n xs) ≡ min n (length xs)
  length-take zero xs = omega arith
  length-take (suc n) [] = omega arith
  length-take (suc n) (x ∷ xs) = omega (arith, length-take n xs)

  -- Taking more than there is takes everything.
  take-min : (n k : ℕ) (xs : List A) → k ≡ min n (length xs) → take n xs ≡ take k xs
  take-min zero zero xs e = refl
  take-min zero (suc k) xs e = absurd (omega arith)
  take-min (suc n) zero [] e = refl
  take-min (suc n) zero (x ∷ xs) e = absurd (omega arith)
  take-min (suc n) (suc k) [] e = refl
  take-min (suc n) (suc k) (x ∷ xs) e = ap (λ l. x ∷ l) (take-min n k xs (omega arith))

  take_nothing : (n : ℕ) (xs : List A) → length xs ≡ 0 → take n xs ≡ []
  take_nothing zero xs e = refl
  take_nothing (suc n) [] e = refl
  take_nothing (suc n) (x ∷ xs) e = absurd (omega arith)

  pub take-append_drop : (n : ℕ) (xs : List A) → take n xs ++ drop n xs ≡ xs
  take-append_drop zero xs = refl
  take-append_drop (suc n) [] = refl
  take-append_drop (suc n) (x ∷ xs) = ap (λ l. x ∷ l) (take-append_drop n xs)

  pub take_none : (n i : ℕ) → take {A = A} n (drop i []) ≡ []
  take_none zero i = refl
  take_none (suc n) zero = refl
  take_none (suc n) (suc i) = refl

  drop_nil : (n : ℕ) → drop {A = A} n [] ≡ []
  drop_nil zero = refl
  drop_nil (suc n) = refl

  pub drop-drop : (n m k : ℕ) (xs : List A) → k ≡ m + n → drop n (drop m xs) ≡ drop k xs
  drop-drop n zero k xs e = ap (λ j. drop j xs) (omega arith)
  drop-drop n (suc m) k [] e = drop_nil n ∙ sym (drop_nil k)
  drop-drop n (suc m) zero (x ∷ xs) e = absurd (omega arith)
  drop-drop n (suc m) (suc k) (x ∷ xs) e = drop-drop n m k xs (omega arith)

  pub drop_past : (n : ℕ) (xs : List A) → length xs ≤ n → drop n xs ≡ []
  drop_past zero [] h = refl
  drop_past zero (x ∷ xs) h = absurd (omega arith)
  drop_past (suc n) [] h = refl
  drop_past (suc n) (x ∷ xs) h = drop_past n xs (omega arith)

  pub page-slice :
      (offset limit : ℕ) (xs : List A)
      → length xs ≤ u32_max
      → places (page_end offset limit xs - offset) offset xs ≡ take limit (drop offset xs)
  page-slice offset limit xs fits =
      let rest = drop offset xs in
      places-slice (page_end offset limit xs - offset) offset xs
      ∙ take-min (page_end offset limit xs - offset) (min limit (length rest)) rest
          (omega (arith, length-drop offset xs))
      ∙ sym (take-min limit (min limit (length rest)) rest refl)

-- A page of the flat index.
pub index_page-slice :
    (r : Registry) (offset limit : ℕ)
    → length r.index ≤ u32_max
    → get_index_page r offset limit ≡ take (effective_limit limit) (drop offset r.index)
unfolding get_index_page
index_page-slice r offset limit fits = elim (Bool-cases (leb (length r.index) offset)) [
  | inl past ↦ rw past (
      sym (
        take_nothing (effective_limit limit) (drop offset r.index)
          (omega (arith, leb→le _ _ past, length-drop offset r.index))))
  | inr inside ↦ rw inside (page-slice offset (effective_limit limit) r.index fits)
]
