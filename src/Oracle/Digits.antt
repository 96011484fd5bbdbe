-- ===== src/Oracle/Digits.antt =====
-- The digits of a number: twenty places are enough for u64, and they read back as the number.
use trustbridge_contract.Base.{
  ℕ, zero, suc, ◌+◌, ◌-◌, ◌*◌, ◌/◌, ◌%◌, ◌<◌, ◌≤◌, ◌≡◌, ◌∙◌, ap, true, false, some, List, [], ◌∷◌,
  arith, ◌==◌, Bool-cases, Option-cases, inl, inr, u64_max, is_some,
}
use trustbridge_contract.Oracle.{write_digits}

-- The number that a text of digits names, after one already read.
abbrev pub read_digits : ℕ → List ℕ → ℕ
read_digits acc [] = acc
read_digits acc (d ∷ ds) = read_digits (acc * 10 + (d - 48)) ds

-- The numbers that fit so many places are those below.
abbrev bound : ℕ → ℕ
bound zero = 1
bound (suc places) = 10 * bound places

pub write_digits_fits :
    (places n : ℕ) (written : List ℕ)
    → n < bound (suc places)
    → is_some (write_digits (suc places) n written) ≡ true
unfolding write_digits
write_digits_fits zero n written h = ground arith
write_digits_fits (suc places) n written h =
    ground (arith, write_digits_fits places (n / 10) ((48 + n % 10) ∷ written))

last_digit :
    (n : ℕ) (ds : List ℕ)
    → (n / 10 == 0) ≡ true
    → read_digits 0 ((48 + n % 10) ∷ ds) ≡ read_digits n ds
last_digit n ds e =
    let same : 0 * 10 + ((48 + n % 10) - 48) ≡ n = ground arith in
    ap (λ (k : ℕ). read_digits k ds) same

next_digit : (n : ℕ) (ds : List ℕ) → read_digits (n / 10) ((48 + n % 10) ∷ ds) ≡ read_digits n ds
next_digit n ds =
    let same : (n / 10) * 10 + ((48 + n % 10) - 48) ≡ n = omega arith in
    ap (λ (k : ℕ). read_digits k ds) same

module _ (places n : ℕ) (written ds : List ℕ) where
  no_places : write_digits 0 n written ≡ some ds → read_digits 0 ds ≡ read_digits n written
  unfolding write_digits
  no_places e = cc

  stops :
      (n / 10 == 0) ≡ true
      → write_digits (suc places) n written ≡ some ds
      → ds ≡ (48 + n % 10) ∷ written
  unfolding write_digits
  stops last e = ground (arith, e)

  goes_on :
      (n / 10 == 0) ≡ false
      → write_digits (suc places) n written ≡ some ds
      → write_digits places (n / 10) ((48 + n % 10) ∷ written) ≡ some ds
  unfolding write_digits
  goes_on more e = ground (arith, e)

pub read_digits-write :
    (places n : ℕ) (written ds : List ℕ)
    → write_digits places n written ≡ some ds
    → read_digits 0 ds ≡ read_digits n written
read_digits-write zero n written ds e = no_places 0 n written ds e
read_digits-write (suc places) n written ds e = elim (Bool-cases (n / 10 == 0)) [
  | inl last ↦ ap (read_digits 0) (stops places n written ds last e) ∙ last_digit n written last
  | inr more ↦
      read_digits-write places (n / 10) ((48 + n % 10) ∷ written) ds
        (goes_on places n written ds more e)
      ∙ next_digit n written
]

-- The expiry of a proof is written in full, and reads back.
pub digits_of_u64 :
    (n : ℕ)
    → n ≤ u64_max
    → (ds : List ℕ) × (write_digits 20 n [] ≡ some ds) × (read_digits 0 ds ≡ n)
digits_of_u64 n h = elim (Option-cases (write_digits 20 n [])) [
  | inl none_left ↦
      let fits : is_some (write_digits 20 n []) ≡ true = write_digits_fits 19 n [] (omega arith) in
      cc
  | inr (ds, e) ↦ (ds, e, read_digits-write 20 n [] ds e)
]
