-- ===== src/Contract/Register/Completes.antt =====
-- A first registration of a free name goes through.
use trustbridge_contract.Base.{ℕ, ◌≡◌, true, false, Option, none, some, [], is_some, arith}
use trustbridge_contract.Username.{Username, is_valid_github_username}
use trustbridge_contract.Types.{Address, ContributorRecord, AuditEventType}
use trustbridge_contract.Types.State.{State}
use trustbridge_contract.Registry.{get_record}
use trustbridge_contract.Names.{is_reserved, has_challenge, is_in_cooldown}
use trustbridge_contract.Contract.Monad.{Env, ok, actions}
use trustbridge_contract.Contract.Guards.{
  require_initialized, require_not_paused, is_zero_address, record_event, push_audit_entry, publish,
  event_domain, set_last_event_ledger,
}
use trustbridge_contract.Contract.Guards.Serves.{Serves}
use trustbridge_contract.Contract.Register.{register, commit, check_fallbacks, require_old_holder}

module _ (u : Username) (a : Address) (env : Env) (s : State) where
  commit_returns :
      (o : Option ContributorRecord) (sp : Option Address) (now : ℕ)
      → is_some (record_event AuditEventType.user_registered s.audit.stats) ≡ true
      → (commit u o a sp now env s).0 ≡ ok tt
  unfolding commit actions publish event_domain set_last_event_ledger push_audit_entry
  commit_returns none sp now room = ground arith
  commit_returns (some old) sp now room = ground arith

  -- A first registration without fallback addresses returns, where the contract is initialized on
  -- this network, not paused and has room in its audit counters, the name is valid, not reserved,
  -- not challenged, not registered and out of its cooldown, and the address is not the zero
  -- address and has authorized the call.
  pub register-returns :
      Serves AuditEventType.user_registered env s
      → is_valid_github_username u ≡ true
      → is_zero_address env a ≡ false
      → is_reserved s.names u ≡ false
      → has_challenge s.names u ≡ false
      → env.authorized a ≡ true
      → get_record s.registry u ≡ none
      → is_in_cooldown env.timestamp s.governance.cooldown s.names u ≡ false
      → (register u a [] env s).0 ≡ ok tt
  unfolding register actions require_initialized require_not_paused check_fallbacks
      require_old_holder
  register-returns serves valid nonzero free unchallenged auth absent rested = ground (
    arith,
    serves.initialized,
    serves.on_network,
    serves.not_paused,
    commit_returns none none env.timestamp serves.audit_room,
  )
