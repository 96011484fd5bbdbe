-- ===== src/Username/Percentage.antt =====
-- `calculate_verification_percentage` (src/utils.rs:229).
use native.Mathlib.Nat.{div-add-mod, mod-lt}
use native.Mathlib.Decide.{dec_le}
use trustbridge_contract.Base.{ℕ, ◌+◌, ◌*◌, ◌/◌, ◌%◌, ◌≡◌, ◌≤◌, ◌<◌, arith}
use trustbridge_contract.Username.{calculate_verification_percentage}

times_le : (a b c : ℕ) → a ≤ b → a * c ≤ b * c
times_le a b c h = grind arith

-- A quotient with remainder below the divisor, of `100 v` and half the divisor.
rounded :
    (v t q r : ℕ)
    → t * q + r ≡ v * 100 + t / 2
    → r < t
    → v < t
    → (q ≤ 100) × (2 * t * q ≤ 200 * v + t) × (200 * v ≤ 2 * t * q + t)
rounded v t q r e h k = (bounded, omega arith, omega arith)
  where
    bounded : q ≤ 100
    bounded = elim (dec_le q 100) [
      | yes p ↦ p
      | no p ↦ absurd (omega (arith, times_le 101 q t (omega arith)))
    ]

-- For a part of a nonempty whole, the percentage is at most 100 and differs from the exact one by
-- at most one half.
pub percentage_rounds :
    (verified total : ℕ)
    → 1 ≤ total
    → verified ≤ total
    → (calculate_verification_percentage verified total ≤ 100)
      × (2 * total * calculate_verification_percentage verified total ≤ 200 * verified + total)
      × (200 * verified ≤ 2 * total * calculate_verification_percentage verified total + total)
unfolding calculate_verification_percentage
percentage_rounds verified total p h =
    let n = verified * 100 + total / 2 in
    ground (arith, rounded verified total (n / total) (n % total) (div-add-mod n total), mod-lt n p)
