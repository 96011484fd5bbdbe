-- ===== src/Contract/Roles.antt =====
-- Roles and the verifier allowlist (src/lib.rs:599).
pub mod Allowlist
use trustbridge_contract.Base.{
  ℕ, Bool, true, false, not, ◌&&◌, ◌||◌, Option, none, some, List, [], ◌∷◌, ◌++◌, ⊤, ◌==◌,
  if◌then◌else◌, is_some, ltb, leb, length, saturating_add_u64,
}
use trustbridge_contract.Error.{ContractError}
use trustbridge_contract.Types.{
  Address, AuditEventType, Role, role_code, PendingRoleGrant, VerifierAllowEntry,
}
use trustbridge_contract.Types.Event.{Event}
use trustbridge_contract.Types.State.{State, Access}
use trustbridge_contract.Access
use trustbridge_contract.Access.{
  get_allowlist, set_allowlist, has_entry, refreshed, entries_without, prune_expired_verifiers,
  max_verifiers, set_pending_role, remove_pending_role,
}
use trustbridge_contract.Contract.Monad.{
  Env, M, pure, ask, gets, ok_or, ◌>>=◌, ◌>>◌, reject_if, require_auth, on_access,
}
use trustbridge_contract.Contract.Guards.{
  require_initialized, require_not_paused, get_admin, publish, push_audit_entry, log_entry,
  with_address, event_domain, holds_role,
}

unfoldable pub grant : Address → Role → Address → ℕ → M ⊤
grant target role admin timestamp = do
  d ← event_domain
  publish (Event.role_granted target (role_code role) admin timestamp d)
  push_audit_entry (with_address target (log_entry AuditEventType.role_changed timestamp admin))

-- With a delay a grant waits, without one it takes effect at once.
unfoldable pub grant_or_wait : Bool → Address → Role → Address → ℕ → ℕ → M ⊤
unfolding grant
grant_or_wait true target role admin delay timestamp = do
  let activate_at = saturating_add_u64 timestamp delay
  on_access (set_pending_role target (record { role = role; activate_at = activate_at }))
  publish (Event.role_grant_pending target (role_code role) admin activate_at timestamp)
grant_or_wait false target role admin delay timestamp = do
  on_access (Access.set_role target role)
  grant target role admin timestamp

unfoldable pub set_role : Address → Role → M ⊤
set_role target role = do
  require_initialized
  require_not_paused
  admin ← get_admin
  require_auth admin
  env ← ask (λ e. e)
  s ← gets (λ s. s)
  grant_or_wait (ltb 0 s.access.role_delay) target role admin s.access.role_delay env.timestamp

unfoldable pub set_role_delay : ℕ → M ⊤
set_role_delay secs = do
  require_initialized
  admin ← get_admin
  require_auth admin
  on_access (λ x. record x { role_delay = secs })

unfoldable pub activate_role : Address → M ⊤
unfolding grant
activate_role target = do
  require_initialized
  require_not_paused
  admin ← get_admin
  require_auth admin
  env ← ask (λ e. e)
  s ← gets (λ s. s)
  p ← ok_or (s.access.pending_roles target) ContractError.no_pending_role_grant
  reject_if (ltb env.timestamp p.activate_at) ContractError.role_grant_not_ready
  on_access (Access.set_role target p.role)
  on_access (remove_pending_role target)
  grant target p.role admin env.timestamp

unfoldable pub cancel_role_grant : Address → M ⊤
cancel_role_grant target = do
  require_initialized
  admin ← get_admin
  require_auth admin
  env ← ask (λ e. e)
  s ← gets (λ s. s)
  reject_if (not (is_some (s.access.pending_roles target))) ContractError.no_pending_role_grant
  on_access (remove_pending_role target)
  publish (Event.role_grant_cancelled target admin env.timestamp)

unfoldable pub remove_role : Address → M ⊤
remove_role target = do
  require_initialized
  require_not_paused
  admin ← get_admin
  require_auth admin
  on_access (Access.remove_role target)
  on_access (remove_pending_role target)
  env ← ask (λ e. e)
  d ← event_domain
  publish (Event.role_revoked target admin env.timestamp d)

unfoldable pub set_role_with_expiry : Address → Role → Option ℕ → M ⊤
set_role_with_expiry target role expires_at = do
  require_initialized
  require_not_paused
  admin ← get_admin
  require_auth admin
  env ← ask (λ e. e)
  s ← gets (λ s. s)
  reject_if (ltb 0 s.access.role_delay && not (holds_role env s.access target role))
      ContractError.role_grant_not_ready
  on_access (Access.set_role_with_expiry target role expires_at)
  d ← event_domain
  publish (Event.role_granted target (role_code role) admin env.timestamp d)

-- `add_verifier` of src/storage.rs: expired entries go first; a new entry needs a free slot.
unfoldable pub enlist : Address → ℕ → ℕ → M ⊤
enlist a expires_at now = do
  reject_if (not (expires_at == 0) && leb expires_at now) ContractError.verifier_expiry_in_past
  on_access (prune_expired_verifiers now)
  s ← gets (λ s. s)
  let list = get_allowlist s.access
  let entry : VerifierAllowEntry = record { address = a; expires_at = expires_at; added_at = now }
  reject_if (not (has_entry a list) && leb max_verifiers (length list))
      ContractError.verifier_allowlist_full
  on_access
      (set_allowlist (if has_entry a list then refreshed a entry list else list ++ entry ∷ []))

-- `remove_verifier` of src/storage.rs.
unfoldable pub delist : Address → ℕ → M ⊤
delist a now = do
  s ← gets (λ s. s)
  reject_if (not (has_entry a (get_allowlist s.access))) ContractError.verifier_not_allowlisted
  on_access (set_allowlist (entries_without a now (get_allowlist s.access)))

unfoldable pub add_verifier : Address → ℕ → M ⊤
unfolding enlist
add_verifier verifier expires_at = do
  require_initialized
  require_not_paused
  admin ← get_admin
  require_auth admin
  env ← ask (λ e. e)
  enlist verifier expires_at env.timestamp
  on_access (Access.set_role verifier Role.verifier)
  d ← event_domain
  publish (Event.role_granted verifier (role_code Role.verifier) admin env.timestamp d)

unfoldable pub remove_verifier : Address → M ⊤
unfolding delist
remove_verifier verifier = do
  require_initialized
  require_not_paused
  admin ← get_admin
  require_auth admin
  env ← ask (λ e. e)
  delist verifier env.timestamp
  on_access (Access.remove_role verifier)
  d ← event_domain
  publish (Event.role_revoked verifier admin env.timestamp d)
