-- ===== src/Contract/Rename.antt =====
-- `rename` (src/lib.rs:3930).
pub mod Effect
use trustbridge_contract.Base.{
  ℕ, ◌-◌, Bool, true, false, not, ◌&&◌, ◌||◌, Option, none, some, ⊤, ◌==◌, if◌then◌else◌, as_u32,
  bytes_eq,
}
use trustbridge_contract.Error.{ContractError}
use trustbridge_contract.Username.{Username, is_valid_github_username}
use trustbridge_contract.Types.{Address, ContributorRecord, AuditEventType}
use trustbridge_contract.Types.Event.{Event}
use trustbridge_contract.Types.State.{State, Registry}
use trustbridge_contract.Registry.{
  get_record, set_record, has_record, add_to_index, remove_from_index, erase_record,
  set_verified_count,
}
use trustbridge_contract.Names.{
  has_challenge, has_pending_rotation, is_reserved, is_in_cooldown, get_pending_reverify,
  set_pending_reverify, set_last_action,
}
use trustbridge_contract.Contract.Monad.{
  Env, M, pure, ask, gets, ok_or, ◌>>=◌, ◌>>◌, reject_if, require_auth, on_registry, on_names,
}
use trustbridge_contract.Contract.Guards.{
  require_initialized, require_not_paused, get_admin, publish, push_audit_entry, log_entry,
  with_username, with_details, refuse_if, text,
}
use trustbridge_contract.Contract.Remove.{remove_record}

-- The record under its new name.
abbrev pub moved : ContributorRecord → ℕ → ContributorRecord
moved c timestamp = record {
  stellar_address = c.stellar_address;
  payout_address = c.payout_address;
  registered_at = as_u32 timestamp;
  verified = false;
  is_bot = c.is_bot;
}

unfoldable pub carry_over : Username → Username → ContributorRecord → Bool → ℕ → M ⊤
unfolding remove_record
carry_over old new c reverify_pending timestamp = do
  on_registry (λ r. if c.verified then set_verified_count (r.verified_count - 1) r else r)
  on_registry (set_record new (moved c timestamp))
  on_registry (add_to_index new)
  remove_record old
  on_registry (remove_from_index old)
  on_names (λ n. if c.verified || reverify_pending then set_pending_reverify new true n else n)
  on_names (set_last_action new timestamp)
  publish (Event.renamed old new c.stellar_address c.verified timestamp)
  push_audit_entry (
      with_details old
        (with_username new (log_entry AuditEventType.user_renamed timestamp c.stellar_address)))

unfoldable pub rename : Address → Username → Username → M ⊤
rename caller old new = do
  require_initialized
  require_not_paused
  env ← ask (λ e. e)
  s ← gets (λ s. s)
  c ← ok_or (get_record s.registry old) ContractError.not_registered
  admin ← get_admin
  require_auth caller
  refuse_if (not (caller == admin) && not (caller == c.stellar_address)) caller (text "rename")
  reject_if (not (is_valid_github_username new)) ContractError.invalid_username
  reject_if (bytes_eq new old) ContractError.invalid_username
  reject_if (is_reserved s.names new) ContractError.username_reserved
  reject_if (has_record s.registry new) ContractError.username_taken
  reject_if (has_challenge s.names old || has_challenge s.names new) ContractError.challenge_active
  reject_if (has_pending_rotation s.names old) ContractError.rotation_pending
  reject_if (is_in_cooldown env.timestamp s.governance.cooldown s.names old)
      ContractError.cooldown_active
  carry_over old new c (get_pending_reverify s.names old) env.timestamp
