-- ===== src/Contract/Rotation.antt =====
-- Address rotation (src/lib.rs:4056): request, execution after the delay, cancellation.
pub mod Effect
pub mod Completes
use trustbridge_contract.Base.{
  ℕ, ◌-◌, Bool, true, false, not, ◌&&◌, ◌||◌, Option, none, some, ⊤, ◌==◌, if◌then◌else◌, as_u32,
  ltb, saturating_add_u64,
}
use trustbridge_contract.Error.{ContractError}
use trustbridge_contract.Username.{Username}
use trustbridge_contract.Types.{Address, ContributorRecord, AuditEventType, PendingRotation}
use trustbridge_contract.Types.Event.{Event}
use trustbridge_contract.Types.State.{State, Registry}
use trustbridge_contract.Registry.{get_record, set_record, set_verified_count}
use trustbridge_contract.Names.{
  has_challenge, has_pending_rotation, get_pending_rotation, set_pending_rotation,
  remove_pending_rotation, set_pending_reverify, set_last_action,
}
use trustbridge_contract.Contract.Monad.{
  Env, M, pure, ask, gets, ok_or, ◌>>=◌, ◌>>◌, reject_if, require_auth, on_registry, on_names,
}
use trustbridge_contract.Contract.Guards.{
  require_initialized, require_not_paused, get_admin, publish, push_audit_entry, log_entry,
  refuse_if, text, is_zero_address,
}

unfoldable pub set_rotation_delay : ℕ → M ⊤
set_rotation_delay seconds = do
  require_initialized
  admin ← get_admin
  require_auth admin
  on_names (λ n. record n { rotation_delay = seconds })

unfoldable pub request_address_rotation : Username → Address → M ⊤
request_address_rotation u new_address = do
  require_initialized
  require_not_paused
  env ← ask (λ e. e)
  s ← gets (λ s. s)
  c ← ok_or (get_record s.registry u) ContractError.not_registered
  reject_if (is_zero_address env new_address) ContractError.zero_address
  reject_if (has_challenge s.names u) ContractError.challenge_active
  reject_if (has_pending_rotation s.names u) ContractError.rotation_pending
  require_auth c.stellar_address
  if new_address == c.stellar_address then pure tt else require_auth new_address
  let executable_at = saturating_add_u64 env.timestamp s.names.rotation_delay
  on_names (
      set_pending_rotation u (record {
        new_address = new_address;
        requested_at = env.timestamp;
        executable_at = executable_at;
      }))
  publish (Event.rotation_requested u c.stellar_address new_address executable_at env.timestamp)
  push_audit_entry (log_entry AuditEventType.user_registered env.timestamp c.stellar_address)

-- The record of the new holder: verification does not move with the name.
abbrev pub rotated : ContributorRecord → PendingRotation → ℕ → ContributorRecord
rotated c p timestamp = record c {
  stellar_address = p.new_address;
  registered_at = as_u32 timestamp;
  verified = false;
}

unfoldable pub hand_over : Username → ContributorRecord → PendingRotation → ℕ → M ⊤
hand_over u c p timestamp = do
  on_registry (λ r. if c.verified then set_verified_count (r.verified_count - 1) r else r)
  on_names (λ n. if c.verified then set_pending_reverify u true n else n)
  on_registry (set_record u (rotated c p timestamp))
  on_names (set_last_action u timestamp)
  on_names (remove_pending_rotation u)
  publish (Event.rotation_executed u c.stellar_address p.new_address timestamp)
  push_audit_entry (log_entry AuditEventType.user_registered timestamp p.new_address)

unfoldable pub execute_address_rotation : Username → M ⊤
execute_address_rotation u = do
  require_initialized
  require_not_paused
  env ← ask (λ e. e)
  s ← gets (λ s. s)
  c ← ok_or (get_record s.registry u) ContractError.not_registered
  p ← ok_or (get_pending_rotation s.names u) ContractError.no_rotation_pending
  reject_if (ltb env.timestamp p.executable_at) ContractError.rotation_not_ready
  require_auth p.new_address
  hand_over u c p env.timestamp

unfoldable pub cancel_address_rotation : Address → Username → M ⊤
cancel_address_rotation caller u = do
  require_initialized
  env ← ask (λ e. e)
  s ← gets (λ s. s)
  c ← ok_or (get_record s.registry u) ContractError.not_registered
  reject_if (not (has_pending_rotation s.names u)) ContractError.no_rotation_pending
  require_auth caller
  admin ← get_admin
  refuse_if (not (caller == c.stellar_address) && not (caller == admin)) caller
      (text "cancel_address_rotation")
  on_names (remove_pending_rotation u)
  publish (Event.rotation_cancelled u caller env.timestamp)
  push_audit_entry (log_entry AuditEventType.user_registered env.timestamp caller)
