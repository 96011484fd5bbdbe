-- ===== src/Contract/Control.antt =====
-- Initialization, the two pauses, the guardian and the network tag (src/lib.rs:259).
use trustbridge_contract.Base.{
  ℕ, Bool, true, false, not, ◌&&◌, Option, none, some, ⊤, ◌==◌, is_some,
}
use trustbridge_contract.Error.{ContractError}
use trustbridge_contract.Types.{
  Address, Hash, AuditEventType, PauseReason, pause_reason_is_valid, pause_reason_from_code,
  pause_reason_code, Role,
}
use trustbridge_contract.Types.Event.{Event}
use trustbridge_contract.Types.State.{Control}
use trustbridge_contract.Access.{set_role}
use trustbridge_contract.Contract.Monad.{
  M, pure, ask, gets, ◌>>=◌, ◌>>◌, reject_if, require_auth, on_registry, on_access, on_control,
  on_governance,
}
use trustbridge_contract.Contract.Guards.{
  require_matching_network, require_initialized, require_not_paused, get_admin, is_admin_caller,
  publish, push_audit_entry, log_entry, refuse_if, text, event_domain, contract_version,
}

-- The first writes; an index that is there stays.
unfoldable pub initialize : Address → M ⊤
initialize admin = do
  require_matching_network
  env ← ask (λ e. e)
  s ← gets (λ s. s)
  reject_if (is_some s.control.admin) ContractError.already_initialized
  on_control (λ c. record c { admin = some admin; network = some env.network_id; paused = false })
  on_registry (λ r. record r { count = 0; verified_count = 0; ever_verified_count = some 0 })
  on_governance (λ g. record g { cooldown = 0; version = some contract_version })
  on_access (set_role admin Role.admin)
  push_audit_entry (log_entry AuditEventType.contract_initialized env.timestamp admin)

-- The stored code of the reason: `from_code(..).unwrap_or(Other)`.
abbrev pub reason_code_of : ℕ → ℕ
reason_code_of code =
    pause_reason_code (elim (pause_reason_from_code code) [ none ↦ PauseReason.other | some r ↦ r ])

abbrev pub set_paused_state : Bool → ℕ → Control → Control
set_paused_state b code c = record c { paused = b; pause_reason = some (reason_code_of code) }

unfoldable pub announce_pause : Bool → Address → ℕ → ℕ → M ⊤
announce_pause true admin reason_code timestamp = do
  d ← event_domain
  publish (Event.paused admin timestamp reason_code d)
  push_audit_entry (log_entry AuditEventType.contract_paused timestamp admin)
announce_pause false admin reason_code timestamp = do
  d ← event_domain
  publish (Event.unpaused admin timestamp reason_code d)
  push_audit_entry (log_entry AuditEventType.contract_unpaused timestamp admin)

unfoldable pub pause : ℕ → M ⊤
unfolding announce_pause
pause reason_code = do
  require_initialized
  admin ← get_admin
  require_auth admin
  reject_if (not (pause_reason_is_valid reason_code)) ContractError.invalid_pause_reason
  on_control (set_paused_state true reason_code)
  env ← ask (λ e. e)
  announce_pause true admin reason_code env.timestamp

unfoldable pub unpause : ℕ → M ⊤
unfolding announce_pause
unpause reason_code = do
  require_initialized
  admin ← get_admin
  require_auth admin
  reject_if (not (pause_reason_is_valid reason_code)) ContractError.invalid_pause_reason
  on_control (set_paused_state false reason_code)
  env ← ask (λ e. e)
  announce_pause false admin reason_code env.timestamp

-- `==` of `bool`.
unfoldable pub same_flag : Bool → Bool → Bool
same_flag true b = b
same_flag false b = not b

-- A request for the state that is there already changes nothing.
unfoldable pub flip_pause : Bool → Bool → Address → ℕ → ℕ → M ⊤
flip_pause true paused admin reason_code timestamp = pure tt
flip_pause false paused admin reason_code timestamp = do
  on_control (set_paused_state paused reason_code)
  announce_pause paused admin reason_code timestamp

unfoldable pub set_paused : Bool → ℕ → M ⊤
set_paused paused reason_code = do
  require_initialized
  admin ← get_admin
  require_auth admin
  reject_if (not (pause_reason_is_valid reason_code)) ContractError.invalid_pause_reason
  env ← ask (λ e. e)
  s ← gets (λ s. s)
  flip_pause (same_flag s.control.paused paused) paused admin reason_code env.timestamp

unfoldable pub set_guardian : Option Address → M ⊤
set_guardian guardian = do
  require_initialized
  admin ← get_admin
  require_auth admin
  on_control (λ c. record c { guardian = guardian })
  env ← ask (λ e. e)
  publish (Event.guardian_changed guardian admin env.timestamp)

abbrev pub is_guardian : Control → Address → Bool
is_guardian c a = elim c.guardian [ none ↦ false | some g ↦ g == a ]

-- A second emergency pause changes nothing, nor does the clearing of one that is not on.
unfoldable pub raise_emergency : Bool → Address → ℕ → M ⊤
raise_emergency true caller timestamp = pure tt
raise_emergency false caller timestamp = do
  on_control (λ c. record c { emergency_pause = true; emergency_pause_ts = timestamp })
  d ← event_domain
  publish (Event.emergency_paused caller timestamp 99 d)
  push_audit_entry (log_entry AuditEventType.contract_paused timestamp caller)

unfoldable pub lift_emergency : Bool → Address → ℕ → M ⊤
lift_emergency false admin timestamp = pure tt
lift_emergency true admin timestamp = do
  on_control (λ c. record c { emergency_pause = false })
  d ← event_domain
  publish (Event.emergency_cleared admin timestamp d)
  push_audit_entry (log_entry AuditEventType.contract_unpaused timestamp admin)

unfoldable pub emergency_pause : Address → M ⊤
emergency_pause caller = do
  require_initialized
  require_auth caller
  env ← ask (λ e. e)
  s ← gets (λ s. s)
  refuse_if (not (is_admin_caller env s caller) && not (is_guardian s.control caller)) caller
      (text "emergency_pause")
  raise_emergency s.control.emergency_pause caller env.timestamp

unfoldable pub clear_emergency_pause : M ⊤
clear_emergency_pause = do
  require_initialized
  admin ← get_admin
  require_auth admin
  env ← ask (λ e. e)
  s ← gets (λ s. s)
  lift_emergency s.control.emergency_pause admin env.timestamp

-- A recorded network that is not the live one is refused; none is replaced by the live one.
unfoldable pub adopt : Option Hash → Hash → M ⊤
adopt none live = on_control (λ c. record c { network = some live })
adopt (some recorded) live = reject_if (not (recorded == live)) ContractError.network_mismatch

unfoldable pub adopt_network_tag : M ⊤
adopt_network_tag = do
  admin ← get_admin
  require_not_paused
  require_auth admin
  env ← ask (λ e. e)
  s ← gets (λ s. s)
  adopt s.control.network env.network_id
