-- ===== src/Contract/Verify.antt =====
-- Verification: `verify`, `revoke_verification` and `set_bot_status` of src/lib.rs, and
-- `batch_verify` of src/batch.rs.
pub mod Effect
pub mod Completes
pub mod Batch
use trustbridge_contract.Base.{
  ℕ, ◌+◌, ◌-◌, Bool, true, false, not, ◌&&◌, ◌||◌, Option, none, some, List, [], ◌∷◌, ◌++◌, ⊤,
  length, ltb, ◌==◌, if◌then◌else◌, is_some, saturating_add_u32,
}
use trustbridge_contract.Error.{ContractError}
use trustbridge_contract.Username.{Username}
use trustbridge_contract.NameList.{mentions}
use trustbridge_contract.Types.{
  Address, ContributorRecord, AuditEventType, Role, revoke_reason_is_valid,
}
use trustbridge_contract.Types.Event.{Event}
use trustbridge_contract.Types.State.{State, Access, Registry, Names}
use trustbridge_contract.Registry.{
  get_record, set_record, set_verified_count, bump_ever_verified_count,
}
use trustbridge_contract.Names.{
  is_verification_expired, set_verified_at, clear_verified_at, clear_pending_reverify,
}
use trustbridge_contract.Access.{charge_verify_rate, get_allowlist, is_active_verifier}
use trustbridge_contract.Contract.Monad.{
  Env, M, pure, fail, ask, gets, ok_or, ◌>>=◌, ◌>>◌, reject_if, require_auth, on_registry, on_names,
  on_access,
}
use trustbridge_contract.Contract.Guards.{
  require_initialized, require_not_paused, get_admin, is_admin_caller, event_domain, publish,
  push_audit_entry, log_entry, with_username, with_address, refuse_if, text,
  require_role_not_expired, holds_role, is_zero_address,
}
use trustbridge_contract.Contract.Remove.{BatchSummary, new_summary, is_valid_batch_size}

-- `require_bound_record_address`.
abbrev pub require_bound_record_address : Env → ContributorRecord → M ⊤
require_bound_record_address env c =
    reject_if (is_zero_address env c.stellar_address) ContractError.zero_address

-- The verification is in force: `was_active`.
abbrev pub is_active : Env → Names → Username → ContributorRecord → Bool
is_active env n u c = c.verified && not (is_verification_expired env.timestamp n u)

-- `set_verified_count` and `bump_ever_verified_count`, for a record that was not verified yet.
abbrev pub count_up : ContributorRecord → Registry → Registry
count_up c r =
    if c.verified
    then r
    else bump_ever_verified_count (set_verified_count (saturating_add_u32 r.verified_count 1) r)

unfoldable pub announce_verified : Username → ContributorRecord → Address → ℕ → M ⊤
announce_verified u c actor timestamp = do
  d ← event_domain
  publish (Event.verified u c.stellar_address timestamp d)
  push_audit_entry (
      with_address c.stellar_address
        (with_username u (log_entry AuditEventType.user_verified timestamp actor)))

unfoldable pub mark_verified : Username → ContributorRecord → Address → M ⊤
unfolding announce_verified
mark_verified u c actor = do
  env ← ask (λ e. e)
  s ← gets (λ s. s)
  require_bound_record_address env c
  reject_if (is_active env s.names u c) ContractError.already_verified
  on_registry (set_record u (record c { verified = true }))
  on_names (set_verified_at u env.timestamp)
  on_registry (count_up c)
  on_names (clear_pending_reverify u)
  announce_verified u c actor env.timestamp

-- Who may verify: a live allowlist entry where a list is set, the verifier role otherwise.
unfoldable pub is_verifier : Env → Access → Address → Bool
is_verifier env x a =
    if is_some x.allowlist
    then is_active_verifier a env.timestamp (get_allowlist x)
    else holds_role env x a Role.verifier

-- Everybody but the admin is charged.
unfoldable pub charge : Bool → Address → ℕ → M ⊤
charge true a units = pure tt
charge false a units = do
  env ← ask (λ e. e)
  s ← gets (λ s. s)
  x ← ok_or (charge_verify_rate env.sequence a units s.access) ContractError.verify_rate_limited
  on_access (λ _. x)

unfoldable pub verify : Address → Username → M ⊤
verify caller u = do
  require_initialized
  require_not_paused
  require_auth caller
  env ← ask (λ e. e)
  s ← gets (λ s. s)
  if is_admin_caller env s caller then pure tt else require_role_not_expired caller
  refuse_if (not (is_admin_caller env s caller) && not (is_verifier env s.access caller)) caller
      (text "verify")
  charge (is_admin_caller env s caller) caller 1
  c ← ok_or (get_record s.registry u) ContractError.not_registered
  require_bound_record_address env c
  reject_if (is_active env s.names u c) ContractError.already_verified
  mark_verified u c caller

-- The writes of a revocation.
unfoldable pub take_back : Address → Username → ContributorRecord → ℕ → ℕ → M ⊤
take_back caller u c reason_code timestamp = do
  on_registry (set_record u (record c { verified = false }))
  on_registry (λ r. set_verified_count (r.verified_count - 1) r)
  on_names (clear_verified_at u)
  d ← event_domain
  publish (Event.verification_revoked u c.stellar_address timestamp reason_code d)
  push_audit_entry (
      with_address c.stellar_address
        (with_username u (log_entry AuditEventType.verification_revoked timestamp caller)))

unfoldable pub revoke_verification : Address → Username → ℕ → M ⊤
revoke_verification caller u reason_code = do
  require_initialized
  require_not_paused
  reject_if (not (revoke_reason_is_valid reason_code)) ContractError.invalid_reason_code
  require_auth caller
  env ← ask (λ e. e)
  s ← gets (λ s. s)
  if is_admin_caller env s caller then pure tt else require_role_not_expired caller
  refuse_if
      (not (is_admin_caller env s caller) && not (holds_role env s.access caller Role.revoker))
      caller (text "revoke_verification")
  charge (is_admin_caller env s caller) caller 1
  c ← ok_or (get_record s.registry u) ContractError.not_registered
  reject_if (not c.verified) ContractError.not_verified
  take_back caller u c reason_code env.timestamp

unfoldable pub set_bot_status : Address → Username → Bool → M ⊤
set_bot_status caller u is_bot = do
  require_initialized
  require_not_paused
  require_auth caller
  env ← ask (λ e. e)
  s ← gets (λ s. s)
  c ← ok_or (get_record s.registry u) ContractError.not_registered
  admin ← get_admin
  refuse_if (not (caller == admin) && not (caller == c.stellar_address)) caller
      (text "set_bot_status")
  on_registry (set_record u (record c { is_bot = is_bot }))
  d ← event_domain
  publish (Event.bot_status_changed u is_bot caller env.timestamp d)

-- The first loop of `batch_verify`: the names to verify, each once.
abbrev pub skips : Env → Names → Username → Option ContributorRecord → List Username → Bool
skips env n u none pending = true
skips env n u (some c) pending =
    is_zero_address env c.stellar_address || is_active env n u c || mentions u pending

unfoldable pub collect : Env → State → List Username → List Username → List Username
collect env s [] pending = pending
collect env s (u ∷ us) pending =
    collect env s us
      (if skips env s.names u (get_record s.registry u) pending then pending else pending ++ u ∷ [])

-- The second loop, with its tallies.
pub record Verified : Type 0 where
  pub successful : ℕ
  pub newly_verified : ℕ

abbrev pub verified_tally : ContributorRecord → Verified → Verified
verified_tally c t = record {
  successful = saturating_add_u32 t.successful 1;
  newly_verified = if c.verified then t.newly_verified else saturating_add_u32 t.newly_verified 1;
}

abbrev pub verify_ever : ContributorRecord → Registry → Registry
verify_ever c r = if c.verified then r else bump_ever_verified_count r

unfoldable pub verify_write : Address → Username → ContributorRecord → Verified → ℕ → M Verified
unfolding announce_verified
verify_write caller u c t timestamp = do
  on_registry (set_record u (record c { verified = true }))
  on_names (set_verified_at u timestamp)
  on_registry (verify_ever c)
  on_names (clear_pending_reverify u)
  announce_verified u c caller timestamp
  pure (verified_tally c t)

unfoldable pub verify_one : Address → Username → Option ContributorRecord → Verified → M Verified
verify_one caller u none t = pure t
verify_one caller u (some c) t = do
  env ← ask (λ e. e)
  elim (is_zero_address env c.stellar_address) [
    | true ↦ pure t
    | false ↦ verify_write caller u c t env.timestamp
  ]

unfoldable pub verify_each : Address → List Username → Verified → M Verified
verify_each caller [] t = pure t
verify_each caller (u ∷ us) t = do
  s ← gets (λ s. s)
  t' ← verify_one caller u (get_record s.registry u) t
  verify_each caller us t'

abbrev pub count_new : Verified → Registry → Registry
count_new t r =
    if ltb 0 t.newly_verified
    then set_verified_count (saturating_add_u32 r.verified_count t.newly_verified) r
    else r

abbrev pub no_verified : Verified
no_verified = record { successful = 0; newly_verified = 0 }

unfoldable pub count_all : List Username → Verified → M BatchSummary
count_all usernames t = do
  on_registry (count_new t)
  pure (new_summary (length usernames) t.successful)

unfoldable pub batch_verify : Address → List Username → M BatchSummary
batch_verify caller usernames = do
  require_initialized
  require_not_paused
  reject_if (not (is_valid_batch_size (length usernames))) ContractError.invalid_batch_size
  require_auth caller
  env ← ask (λ e. e)
  s ← gets (λ s. s)
  if is_admin_caller env s caller then pure tt else require_role_not_expired caller
  reject_if (not (is_admin_caller env s caller) && not (is_verifier env s.access caller))
      ContractError.not_authorized
  charge (is_admin_caller env s caller) caller (length usernames)
  t ← verify_each caller (collect env s usernames []) no_verified
  count_all usernames t
