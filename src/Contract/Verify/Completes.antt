-- ===== src/Contract/Verify/Completes.antt =====
-- The admin can verify a bound record that is not actively verified.
use trustbridge_contract.Base.{◌≡◌, true, false, some, is_some, arith}
use trustbridge_contract.Username.{Username}
use trustbridge_contract.Types.{Address, ContributorRecord, AuditEventType}
use trustbridge_contract.Types.State.{State}
use trustbridge_contract.Registry.{get_record}
use trustbridge_contract.Contract.Monad.{Env, ok, actions}
use trustbridge_contract.Contract.Guards.{
  require_initialized, require_not_paused, refuse_if, is_zero_address, record_event,
  push_audit_entry, publish, event_domain, is_admin_caller,
}
use trustbridge_contract.Contract.Guards.Serves.{Serves}
use trustbridge_contract.Contract.Verify.{verify, mark_verified, charge, is_active}

module _ (admin : Address) (u : Username) (c : ContributorRecord) (env : Env) (s : State) where
  mark_returns :
      is_some (record_event AuditEventType.user_verified s.audit.stats) ≡ true
      → is_zero_address env c.stellar_address ≡ false
      → is_active env s.names u c ≡ false
      → (mark_verified u c admin env s).0 ≡ ok tt
  unfolding mark_verified actions publish event_domain push_audit_entry
  mark_returns room bound idle = ground arith

  -- The admin, having authorized it, verifies a registered name whose address is not the zero
  -- address and that is not actively verified: the call returns, where the contract is initialized
  -- on this network, not paused and has room in its audit counters.
  pub verify-returns :
      Serves AuditEventType.user_verified env s
      → s.control.admin ≡ some admin
      → env.authorized admin ≡ true
      → get_record s.registry u ≡ some c
      → is_zero_address env c.stellar_address ≡ false
      → is_active env s.names u c ≡ false
      → (verify admin u env s).0 ≡ ok tt
  unfolding verify actions require_initialized require_not_paused is_admin_caller charge refuse_if
  verify-returns serves is_admin auth stored bound idle = ground (
    arith,
    serves.initialized,
    serves.on_network,
    serves.not_paused,
    mark_returns serves.audit_room bound idle,
  )
