-- ===== src/Contract/Remove/Completes.antt =====
-- The holder and the admin can remove a name.
use trustbridge_contract.Base.{ℕ, ◌≡◌, true, ◌||◌, ◌==◌, some, is_some, arith}
use trustbridge_contract.Username.{Username}
use trustbridge_contract.Types.{Address, ContributorRecord, AuditEventType}
use trustbridge_contract.Types.State.{State}
use trustbridge_contract.Registry.{get_record}
use trustbridge_contract.Contract.Monad.{Env, ok, actions}
use trustbridge_contract.Contract.Guards.{
  require_initialized, require_not_paused, get_admin, refuse_if, record_event, push_audit_entry,
  publish, event_domain,
}
use trustbridge_contract.Contract.Guards.Serves.{Serves}
use trustbridge_contract.Contract.Remove.{remove, take_out}

module _ (caller admin : Address) (u : Username) (c : ContributorRecord) (env : Env)
    (s : State) where
  take_out_returns :
      (now : ℕ)
      → is_some (record_event AuditEventType.user_removed s.audit.stats) ≡ true
      → (take_out caller u c now env s).0 ≡ ok tt
  unfolding take_out actions publish event_domain push_audit_entry
  take_out_returns now room = ground arith

  -- The removal of a registered name by its holder or by the admin, who has authorized it,
  -- returns, where the contract is initialized on this network, not paused and has room in its
  -- audit counters.
  pub remove-returns :
      Serves AuditEventType.user_removed env s
      → get_record s.registry u ≡ some c
      → s.control.admin ≡ some admin
      → (caller == admin || caller == c.stellar_address) ≡ true
      → env.authorized caller ≡ true
      → (remove caller u env s).0 ≡ ok tt
  unfolding remove actions require_initialized require_not_paused get_admin refuse_if
  remove-returns serves stored is_admin may auth = ground (
    arith,
    serves.initialized,
    serves.on_network,
    serves.not_paused,
    take_out_returns env.timestamp serves.audit_room,
  )
