-- ===== src/Username/Canonical.antt =====
-- `canonicalize_username` (src/utils.rs:202): the storage key of a name.
use trustbridge_contract.Base.{
  ℕ, ◌≡◌, ◌≤◌, refl, true, List, [], ◌∷◌, arith, ◌==◌, length, bytes_eq, bytes_eq_iff, Bool-cases,
  inl, inr,
}
use trustbridge_contract.Username.{
  Username, is_utf8, canonicalize_username, eq_ignore_ascii_case, all_eq_ignore_case, copy_into_buf,
  username_buf,
}
use trustbridge_contract.Username.Lower.{lower, map-lower-lower, length-lower, is_utf8-lower}

-- Canonicalizing never changes the length of a name.
pub length-canonicalize : (s : Username) → length (canonicalize_username s) ≡ length s
unfolding canonicalize_username
length-canonicalize s = ground (arith, length-lower s)

-- Canonicalizing twice is canonicalizing once, for every byte string.
pub canonicalize-canonicalize :
    (s : Username) → canonicalize_username (canonicalize_username s) ≡ canonicalize_username s
unfolding canonicalize_username
canonicalize-canonicalize s =
    ground (arith, length-lower s, map-lower-lower s, is_utf8-lower s, is_utf8-lower (lower s))

all_eq-bytes_eq :
    (xs ys : List ℕ)
    → length xs ≡ length ys
    → all_eq_ignore_case xs ys ≡ bytes_eq (lower xs) (lower ys)
unfolding all_eq_ignore_case bytes_eq
all_eq-bytes_eq [] [] h = refl
all_eq-bytes_eq [] (y ∷ ys) h = absurd (omega arith)
all_eq-bytes_eq (x ∷ xs) [] h = absurd (omega arith)
all_eq-bytes_eq (x ∷ xs) (y ∷ ys) h = ground (arith, all_eq-bytes_eq xs ys)

-- A name that fits the buffer and is well-formed text.
pub record Fits (s : Username) : Type 0 where
  pub nonempty : 1 ≤ length s
  pub bounded : length s ≤ username_buf
  pub text : is_utf8 s ≡ true

pub canonicalize-lower : (s : Username) → Fits s → canonicalize_username s ≡ lower s
unfolding canonicalize_username
canonicalize-lower s h = ground (arith, is_utf8-lower s)

-- For two nonempty byte strings of UTF-8 that fit the buffer, `eq_ignore_ascii_case` holds exactly
-- when their storage keys are equal.
pub eq_ignore-canonicalize :
    (a b : Username)
    → Fits a
    → Fits b
    → eq_ignore_ascii_case a b ≡ bytes_eq (canonicalize_username a) (canonicalize_username b)
unfolding eq_ignore_ascii_case copy_into_buf
eq_ignore-canonicalize a b fa fb =
    rw (canonicalize-lower a fa, canonicalize-lower b fb)
      (elim (Bool-cases (length a == length b)) [
        | inl same ↦
            ground (arith, all_eq-bytes_eq a b, fa.nonempty, fa.bounded, fb.nonempty, fb.bounded)
        | inr other ↦ ground (
          arith,
          bytes_eq_iff (lower a) (lower b),
          length_of_eq (lower a) (lower b),
          length-lower a,
          length-lower b,
        )
      ])
  where
    length_of_eq : (xs ys : List ℕ) → xs ≡ ys → length xs ≡ length ys
    length_of_eq xs ys p = cc
