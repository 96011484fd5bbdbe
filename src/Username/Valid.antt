-- ===== src/Username/Valid.antt =====
-- `is_valid_github_username` (src/utils.rs:109) against the rules that its comment lists.
use trustbridge_contract.Base.{
  ℕ, ◌≡◌, ◌≢◌, ◌≤◌, ◌↔◌, ◌⊎◌, refl, ap, ◌∙◌, Bool, true, false, List, [], ◌∷◌, arith, ◌==◌, length,
  ⊤,
}
use trustbridge_contract.Username.{
  Username, is_ascii, is_ascii_alphanumeric, scan, first_byte, last_byte, is_valid_github_username,
  copy_into_buf, max_username_len, utf8_from, utf8_step, lead, is_utf8, due,
}
use trustbridge_contract.Username.Canonical.{Fits}

-- A byte that a name may hold: a letter, a digit, `-` or `_`.
abbrev pub NameByte : ℕ → Type 0
NameByte b = (is_ascii_alphanumeric b ≡ true) ⊎ ((b ≡ b'-') ⊎ (b ≡ b'_'))

abbrev pub AllNameBytes : List ℕ → Type 0
AllNameBytes [] = ⊤
AllNameBytes (b ∷ s) = NameByte b × AllNameBytes s

-- No two hyphens stand side by side.
abbrev pub NoDoubleHyphen : List ℕ → Type 0
NoDoubleHyphen [] = ⊤
NoDoubleHyphen (b ∷ []) = ⊤
NoDoubleHyphen (b ∷ c ∷ s) = ((b ≡ b'-') → c ≢ b'-') × NoDoubleHyphen (c ∷ s)

-- The documented rules: 1 to 39 bytes of the alphabet, an alphanumeric at either end, and no
-- two adjacent hyphens.
pub record IsUsername (s : Username) : Type 0 where
  pub nonempty : 1 ≤ length s
  pub bounded : length s ≤ max_username_len
  pub starts : is_ascii_alphanumeric (first_byte s) ≡ true
  pub ends : is_ascii_alphanumeric (last_byte s) ≡ true
  pub alphabet : AllNameBytes s
  pub hyphens : NoDoubleHyphen s

-- What the scan checks beyond the alphabet when it starts with the flag `prev`.
abbrev Follows : Bool → List ℕ → Type 0
Follows prev [] = ⊤
Follows prev (b ∷ s) = (prev ≡ true → b ≢ b'-') × NoDoubleHyphen (b ∷ s)

scan_sound : (prev : Bool) (s : List ℕ) → scan prev s ≡ true → AllNameBytes s × Follows prev s
unfolding scan
scan_sound prev [] h = (tt, tt)
scan_sound prev (b ∷ []) h = ground arith
scan_sound prev (b ∷ c ∷ s) h = ground (arith, scan_sound (b == b'-') (c ∷ s))

alphanumeric-ascii : (b : ℕ) → is_ascii_alphanumeric b ≡ true → (is_ascii b ≡ true) × (b ≢ b'-')
unfolding is_ascii_alphanumeric
alphanumeric-ascii b h = ground arith

scan_complete : (prev : Bool) (s : List ℕ) → AllNameBytes s → Follows prev s → scan prev s ≡ true
unfolding scan
scan_complete prev [] a f = refl
scan_complete prev (b ∷ []) a f = ground (arith, alphanumeric-ascii b)
scan_complete prev (b ∷ c ∷ s) a f =
    ground (arith, alphanumeric-ascii b, scan_complete (b == b'-') (c ∷ s) a.1)

-- `is_valid_github_username` accepts a byte string exactly when it has 1 to 39 bytes, all of them
-- letters, digits, hyphens or underscores, starts and ends with a letter or a digit, and has no
-- two adjacent hyphens.
pub is_valid-IsUsername : (s : Username) → (is_valid_github_username s ≡ true) ↔ IsUsername s
unfolding is_valid_github_username copy_into_buf
is_valid-IsUsername [] = (ground arith, λ u. absurd (omega (arith, u.nonempty)))
is_valid-IsUsername (b ∷ s) =
    (ground (arith, scan_sound false (b ∷ s)), ground (arith, scan_complete false (b ∷ s)))

utf8_step-ascii :
    (b : ℕ) → NameByte b → utf8_step (record { more = 0; low = 0; high = 0 }) b ≡ due 0 0 0
unfolding utf8_step lead is_ascii_alphanumeric
utf8_step-ascii b h = ground arith

AllNameBytes-is_utf8 : (s : List ℕ) → AllNameBytes s → is_utf8 s ≡ true
unfolding utf8_from
AllNameBytes-is_utf8 [] h = refl
AllNameBytes-is_utf8 (b ∷ s) h =
    ap (λ next. utf8_from next s) (utf8_step-ascii b h.0) ∙ AllNameBytes-is_utf8 s h.1

-- A valid name fits the buffer, so its storage key is its lower case form.
pub is_valid-Fits : (s : Username) → is_valid_github_username s ≡ true → Fits s
is_valid-Fits s h =
    let u = (is_valid-IsUsername s).0 h in
    record {
      nonempty = u.nonempty;
      bounded = omega (arith, u.bounded);
      text = AllNameBytes-is_utf8 s u.alphabet;
    }
