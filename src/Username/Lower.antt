-- ===== src/Username/Lower.antt =====
-- Lowering a byte: idempotent, keeps the length, and keeps UTF-8 well formed or ill formed.
use trustbridge_contract.Base.{
  ℕ, ◌≡◌, ◌∙◌, ◌≢◌, ◌≤◌, suc, refl, ap, Option, none, some, List, [], ◌∷◌, map, arith, length,
}
use trustbridge_contract.Username.{Due, to_ascii_lowercase, utf8_step, utf8_from, is_utf8}

pub lower-lower : (b : ℕ) → to_ascii_lowercase (to_ascii_lowercase b) ≡ to_ascii_lowercase b
unfolding to_ascii_lowercase
lower-lower b = ground arith

abbrev pub lower : List ℕ → List ℕ
lower = map to_ascii_lowercase

pub map-lower-lower : (s : List ℕ) → lower (lower s) ≡ lower s
map-lower-lower [] = refl
map-lower-lower (b ∷ s) = rw (lower-lower b, map-lower-lower s)

pub length-lower : (s : List ℕ) → length (lower s) ≡ length s
length-lower [] = refl
length-lower (b ∷ s) = ap suc (length-lower s)

-- What is due next is never a letter.
abbrev InRange : Option Due → Type 0
InRange none = Unit
InRange (some d) = (d.more ≢ 0) → 128 ≤ d.low

utf8_step-InRange : (d : Due) (b : ℕ) → InRange (utf8_step d b)
unfolding utf8_step
utf8_step-InRange d b = ground arith

utf8_step-lower :
    (d : Due) (b : ℕ) → InRange (some d) → utf8_step d (to_ascii_lowercase b) ≡ utf8_step d b
unfolding utf8_step to_ascii_lowercase
utf8_step-lower d b h = ground arith

utf8_from-lower : (d : Option Due) (s : List ℕ) → InRange d → utf8_from d (lower s) ≡ utf8_from d s
unfolding utf8_from
utf8_from-lower none [] h = refl
utf8_from-lower none (b ∷ s) h = refl
utf8_from-lower (some d) [] h = refl
utf8_from-lower (some d) (b ∷ s) h =
    ap (λ next. utf8_from next (lower s)) (utf8_step-lower d b h)
    ∙ utf8_from-lower (utf8_step d b) s (utf8_step-InRange d b)

pub is_utf8-lower : (s : List ℕ) → is_utf8 (lower s) ≡ is_utf8 s
is_utf8-lower s = utf8_from-lower _ s (λ h. absurd (h refl))
