-- ===== src/Contract/Rotation/Completes.antt =====
-- A rotation that is due is executed.
use trustbridge_contract.Base.{ℕ, ◌≡◌, ◌≤◌, true, some, is_some, arith}
use trustbridge_contract.Username.{Username}
use trustbridge_contract.Types.{ContributorRecord, PendingRotation, AuditEventType}
use trustbridge_contract.Types.State.{State}
use trustbridge_contract.Registry.{get_record}
use trustbridge_contract.Names.{get_pending_rotation}
use trustbridge_contract.Contract.Monad.{Env, ok, actions}
use trustbridge_contract.Contract.Guards.{
  require_initialized, require_not_paused, record_event, push_audit_entry, publish,
}
use trustbridge_contract.Contract.Guards.Serves.{Serves}
use trustbridge_contract.Contract.Rotation.{execute_address_rotation, hand_over}

module _ (u : Username) (c : ContributorRecord) (p : PendingRotation) (env : Env) (s : State) where
  hand_over_returns :
      (now : ℕ)
      → is_some (record_event AuditEventType.user_registered s.audit.stats) ≡ true
      → (hand_over u c p now env s).0 ≡ ok tt
  unfolding hand_over actions publish push_audit_entry
  hand_over_returns now room = ground arith

  -- A pending rotation of a registered name whose delay is over and whose new address has
  -- authorized the call is executed: the call returns, where the contract is initialized on this
  -- network, not paused and has room in its audit counters.
  pub execute_address_rotation-returns :
      Serves AuditEventType.user_registered env s
      → get_record s.registry u ≡ some c
      → get_pending_rotation s.names u ≡ some p
      → p.executable_at ≤ env.timestamp
      → env.authorized p.new_address ≡ true
      → (execute_address_rotation u env s).0 ≡ ok tt
  unfolding execute_address_rotation actions require_initialized require_not_paused
  execute_address_rotation-returns serves stored waiting due auth = ground (
    arith,
    serves.initialized,
    serves.on_network,
    serves.not_paused,
    hand_over_returns env.timestamp serves.audit_room,
  )
