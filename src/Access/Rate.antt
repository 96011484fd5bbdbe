-- ===== src/Access/Rate.antt =====
-- The verification rate of an address in a ledger.
use trustbridge_contract.Base.{ℕ, ◌+◌, ◌≡◌, ◌≢◌, ◌≤◌, some, arith, u32_max}
use trustbridge_contract.Types.{Address}
use trustbridge_contract.Types.State.{Access}
use trustbridge_contract.Access.{charge_verify_rate, get_verify_limit, verify_units_spent}

-- Under a limit that is not zero, a charge that is granted adds its units to what the address has
-- spent in this ledger, the sum is within the limit, and what every other address has spent stays
-- the same. The limit and the sum fit u32.
pub charge-within_limit :
    (sequence : ℕ) (a : Address) (units : ℕ) (x x' : Access)
    → get_verify_limit x ≢ 0
    → get_verify_limit x ≤ u32_max
    → verify_units_spent sequence a x + units ≤ u32_max
    → charge_verify_rate sequence a units x ≡ some x'
    → (verify_units_spent sequence a x' ≡ verify_units_spent sequence a x + units)
      × (verify_units_spent sequence a x' ≤ get_verify_limit x)
      × ((b : Address) → b ≢ a → verify_units_spent sequence b x' ≡ verify_units_spent sequence b x)
unfolding charge_verify_rate verify_units_spent
charge-within_limit sequence a units x x' on fits few granted =
    (ground arith, ground arith, λ b other. ground arith)
