-- ===== src/Contract/Health/Cooldown.antt =====
-- The remaining cooldown of a health snapshot, and the cooldown check of `upgrade`.
use trustbridge_contract.Base.{ℕ, ◌≡◌, some, ltb, arith}
use trustbridge_contract.Types.State.{Governance}
use trustbridge_contract.Contract.Upgrade.{cooldown_runs}
use trustbridge_contract.Contract.Health.{cooldown_remaining}

pub cooldown_remaining-cooldown_runs :
    (g : Governance) (now t : ℕ)
    → g.last_upgrade ≡ some t
    → cooldown_runs g now ≡ ltb 0 (cooldown_remaining g now)
unfolding cooldown_runs cooldown_remaining
cooldown_remaining-cooldown_runs g now t e = ground (arith, e)
