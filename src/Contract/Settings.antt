-- ===== src/Contract/Settings.antt =====
-- The entry points of src/lib.rs that set one entry: cooldown, verify limit, verification and
-- audit configuration; and the public pruning of the allowlist.
pub mod Effect
use trustbridge_contract.Base.{ℕ, ◌-◌, Bool, some, not, ⊤, length, ◌==◌, is_some}
use trustbridge_contract.Error.{ContractError}
use trustbridge_contract.Types.{Address, Symbol, AuditEventType, AuditConfig, VerificationConfig}
use trustbridge_contract.Types.Event.{Event}
use trustbridge_contract.Types.State.{State, Audit}
use trustbridge_contract.Access.{get_allowlist, prune_expired_verifiers}
use trustbridge_contract.Contract.Monad.{
  Env, M, pure, ask, gets, ◌>>=◌, ◌>>◌, reject_if, require_auth, modify, on_names, on_access,
  on_governance,
}
use trustbridge_contract.Contract.Guards.{
  require_initialized, require_not_paused, get_admin, publish, push_audit_entry, log_entry,
  refuse_if, text,
}

unfoldable pub set_cooldown : ℕ → M ⊤
set_cooldown cooldown_seconds = do
  require_initialized
  admin ← get_admin
  require_auth admin
  on_governance (λ g. record g { cooldown = cooldown_seconds })

unfoldable pub set_verify_limit : ℕ → M ⊤
set_verify_limit limit = do
  require_initialized
  admin ← get_admin
  require_auth admin
  on_access (λ x. record x { verify_limit = some limit })

-- The entry point of the same name; it returns how many entries left.
unfoldable pub prune_allowlist : M ℕ
prune_allowlist = do
  require_initialized
  env ← ask (λ e. e)
  s ← gets (λ s. s)
  on_access (prune_expired_verifiers env.timestamp)
  s' ← gets (λ s. s)
  pure (length (get_allowlist s.access) - length (get_allowlist s'.access))

-- The configuration is written once.
unfoldable pub config_verification : Address → Symbol → ℕ → ℕ → M ⊤
config_verification caller attestation expires_in threshold = do
  require_initialized
  require_not_paused
  require_auth caller
  admin ← get_admin
  refuse_if (not (caller == admin)) caller (text "config_verification")
  s ← gets (λ s. s)
  reject_if (is_some s.names.verification_config) ContractError.already_initialized
  on_names (λ n. record n {
    verification_config =
        some (record { attestation = attestation; expires_in = expires_in; threshold = threshold });
  })
  env ← ask (λ e. e)
  push_audit_entry (log_entry AuditEventType.admin_action env.timestamp caller)
  publish (Event.verification_configured caller attestation expires_in threshold env.timestamp)

-- `AuditConfig::custom`.
abbrev pub custom : Bool → ℕ → Bool → AuditConfig
custom enabled max_events log_unauthorized = record {
  enabled = enabled;
  max_events = max_events;
  log_unauthorized = log_unauthorized;
}

abbrev pub store_audit_config : AuditConfig → State → State
store_audit_config c s = record s { audit = record (s.audit) { config = some c } }

unfoldable pub set_audit_config : Address → Bool → ℕ → Bool → M ⊤
set_audit_config caller enabled max_events log_unauthorized = do
  require_initialized
  require_auth caller
  admin ← get_admin
  refuse_if (not (caller == admin)) caller (text "set_audit_config")
  modify (store_audit_config (custom enabled max_events log_unauthorized))
  env ← ask (λ e. e)
  publish (Event.audit_config_changed admin enabled max_events log_unauthorized env.timestamp)
  push_audit_entry (log_entry AuditEventType.audit_config_changed env.timestamp admin)
