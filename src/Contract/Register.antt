-- ===== src/Contract/Register.antt =====
-- `register` and `register_sponsored` (src/lib.rs:2425).
pub mod Effect
pub mod Guarded
pub mod Completes
use trustbridge_contract.Base.{
  ℕ, ◌+◌, ◌-◌, Bool, true, false, not, ◌&&◌, ◌||◌, Option, none, some, List, [], ◌∷◌, ⊤, length,
  ltb, ◌==◌, if◌then◌else◌, saturating_add_u32, as_u32,
}
use trustbridge_contract.Error.{ContractError}
use trustbridge_contract.Username.{Username, is_valid_github_username}
use trustbridge_contract.Types.{Address, ContributorRecord, AuditEventType}
use trustbridge_contract.Types.Event.{Event}
use trustbridge_contract.Types.State.{State}
use trustbridge_contract.Registry.{
  get_record, set_record, add_to_index, set_count, set_verified_count,
}
use trustbridge_contract.Names.{
  has_challenge, is_reserved, is_in_cooldown, set_pending_reverify, set_last_action,
}
use trustbridge_contract.Contract.Monad.{
  Env, M, pure, ask, gets, ◌>>=◌, ◌>>◌, reject_if, require_auth, on_registry, on_names,
}
use trustbridge_contract.Contract.Guards.{
  require_initialized, require_not_paused, is_zero_address, event_domain, publish,
  set_last_event_ledger, push_audit_entry, log_entry, with_username, with_address,
}

-- `MAX_FALLBACK_ADDRESSES`.
abbrev pub max_fallback_addresses : ℕ
max_fallback_addresses = 5

-- The loop over the fallback addresses: none is zero, and each authorizes the call.
unfoldable pub check_fallbacks : Address → List Address → M ⊤
check_fallbacks a [] = pure tt
check_fallbacks a (f ∷ fs) = do
  env ← ask (λ e. e)
  reject_if (is_zero_address env f) ContractError.zero_address
  if f == a then pure tt else require_auth f
  check_fallbacks a fs

-- The old holder of the name authorizes a change of address.
unfoldable pub require_old_holder : Option ContributorRecord → Address → M ⊤
require_old_holder none a = pure tt
require_old_holder (some old) a =
    if old.stellar_address == a then pure tt else require_auth old.stellar_address

-- The address of the name changes.
abbrev pub moves : Option ContributorRecord → Address → Bool
moves none a = false
moves (some old) a = not (old.stellar_address == a)

-- The record that a registration writes: it keeps the payout address and the bot flag, and the
-- verified flag where the address stays.
unfoldable pub new_record : Option ContributorRecord → Address → ℕ → ContributorRecord
new_record none a timestamp = record {
  stellar_address = a;
  payout_address = a;
  registered_at = as_u32 timestamp;
  verified = false;
  is_bot = false;
}
new_record (some old) a timestamp = record {
  stellar_address = a;
  payout_address = old.payout_address;
  registered_at = as_u32 timestamp;
  verified = (old.stellar_address == a) && old.verified;
  is_bot = old.is_bot;
}

-- The counters and the index, before the record is written.
unfoldable pub book : Username → Option ContributorRecord → Address → M ⊤
book u none a = do
  on_registry (λ r. set_count (saturating_add_u32 r.count 1) r)
  on_registry (add_to_index u)
book u (some old) a = elim (not (old.stellar_address == a) && old.verified) [
  | true ↦ do
    on_registry (λ r. set_verified_count (r.verified_count - 1) r)
    on_names (set_pending_reverify u true)
  | false ↦ pure tt
]

-- From the record onwards both entry points are the same, but for the sponsor of the event.
unfoldable pub commit : Username → Option ContributorRecord → Address → Option Address → ℕ → M ⊤
unfolding book
commit u existing a sponsor timestamp = do
  book u existing a
  on_registry (set_record u (new_record existing a timestamp))
  on_names (set_last_action u timestamp)
  d ← event_domain
  publish (Event.registered u a timestamp sponsor d)
  set_last_event_ledger
  push_audit_entry
      (with_address a (with_username u (log_entry AuditEventType.user_registered timestamp a)))

unfoldable pub register : Username → Address → List Address → M ⊤
register u a fallbacks = do
  require_initialized
  require_not_paused
  env ← ask (λ e. e)
  s ← gets (λ s. s)
  reject_if (not (is_valid_github_username u)) ContractError.invalid_username
  reject_if (is_zero_address env a) ContractError.zero_address
  reject_if (is_reserved s.names u) ContractError.username_reserved
  reject_if (has_challenge s.names u) ContractError.challenge_active
  require_auth a
  reject_if (ltb max_fallback_addresses (length fallbacks)) ContractError.fallback_list_full
  check_fallbacks a fallbacks
  require_old_holder (get_record s.registry u) a
  reject_if (is_in_cooldown env.timestamp s.governance.cooldown s.names u)
      ContractError.cooldown_active
  reject_if (moves (get_record s.registry u) a && ltb 0 s.names.rotation_delay)
      ContractError.rotation_required
  commit u (get_record s.registry u) a none env.timestamp

unfoldable pub register_sponsored : Username → Address → Address → M ⊤
register_sponsored u a sponsor = do
  require_initialized
  require_not_paused
  env ← ask (λ e. e)
  s ← gets (λ s. s)
  reject_if (not (is_valid_github_username u)) ContractError.invalid_username
  reject_if (is_zero_address env a) ContractError.zero_address
  reject_if (has_challenge s.names u) ContractError.challenge_active
  require_auth sponsor
  require_auth a
  require_old_holder (get_record s.registry u) a
  reject_if (is_in_cooldown env.timestamp s.governance.cooldown s.names u)
      ContractError.cooldown_active
  commit u (get_record s.registry u) a (some sponsor) env.timestamp
