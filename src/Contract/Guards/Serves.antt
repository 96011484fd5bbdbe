-- ===== src/Contract/Guards/Serves.antt =====
-- When the contract accepts calls.
use trustbridge_contract.Base.{◌≡◌, true, false, ◌||◌, is_some}
use trustbridge_contract.Types.{AuditEventType}
use trustbridge_contract.Types.State.{State}
use trustbridge_contract.Contract.Monad.{Env}
use trustbridge_contract.Contract.Guards.{network_mismatch, record_event}

-- The contract accepts calls, and its audit counters have room for one event of the kind.
pub record Serves (t : AuditEventType) (env : Env) (s : State) : Type 0 where
  pub initialized : is_some s.control.admin ≡ true
  pub on_network : network_mismatch s.control env ≡ false
  pub not_paused : (s.control.paused || s.control.emergency_pause) ≡ false
  pub audit_room : is_some (record_event t s.audit.stats) ≡ true
