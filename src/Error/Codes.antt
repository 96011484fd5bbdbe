-- ===== src/Error/Codes.antt =====
-- The codes of src/error.rs and `from_code`.
use trustbridge_contract.Base.{
  ℕ, ◌≡◌, ◌↔◌, refl, ◌∙◌, ◌==◌, ==_iff, Bool-cases, inl, inr, sym, some_eq, some, List, [], ◌∷◌, ⊤,
  arith,
}
use trustbridge_contract.Error.{ContractError, code, from_code, from_code_arms, first_arm}

-- Every arm gives back the error with that code.
abbrev Arms : List (ℕ × ContractError) → Type 0
Arms [] = ⊤
Arms ((c, e) ∷ arms) = (code e ≡ c) × Arms arms

first_arm-code :
    (n : ℕ) (arms : List (ℕ × ContractError)) (e : ContractError)
    → Arms arms
    → first_arm n arms ≡ some e
    → code e ≡ n
unfolding first_arm
first_arm-code n [] e h p = cc
first_arm-code n ((c, e') ∷ arms) e h p = elim (Bool-cases (n == c)) [
  | inl fits ↦
      let same : e' ≡ e = some_eq e' e (rw fits at p) in
      rw (← same) (h.0 ∙ sym ((==_iff n c).0 fits))
  | inr misses ↦ first_arm-code n arms e h.1 (rw misses at p)
]

Arms-right : Arms from_code_arms
unfolding code
Arms-right = ground arith

from_code-code : (e : ContractError) → from_code (code e) ≡ some e
unfolding from_code code
from_code-code ContractError.already_initialized = refl
from_code-code _ = refl

-- `from_code` gives an error for a number exactly when the number is the code of that error.
pub from_code_iff : (n : ℕ) (e : ContractError) → (from_code n ≡ some e) ↔ (code e ≡ n)
unfolding from_code
from_code_iff n e = (first_arm-code n from_code_arms e Arms-right, λ p. rw (← p) (from_code-code e))
