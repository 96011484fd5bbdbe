-- ===== src/Contract/Guards.antt =====
-- What the entry points of src/lib.rs share: initialization, pause and role checks, the event
-- domain, the audit log (src/audit.rs, src/storage.rs).
pub mod Same
pub mod Serves
use Prim.Native.String.{String}
use Prim.Native.Char.{code}
use trustbridge_contract.Base.{
  ℕ, ◌+◌, Bool, true, false, not, ◌&&◌, ◌||◌, Option, none, some, List, [], ◌∷◌, ◌++◌, ⊤, length,
  drop, ltb, leb, ◌==◌, if◌then◌else◌, u32_max, is_some,
}
use trustbridge_contract.Error.{ContractError}
use trustbridge_contract.Username.{Username}
use trustbridge_contract.Types.{
  Address, VersionTuple, AuditEventType, AuditLogEntry, AuditConfig, AuditStats, Role, role_eq,
}
use trustbridge_contract.Types.Event.{Event, EventDomain, event_domain_version}
use trustbridge_contract.Types.State.{State, Audit, Control, Governance, Access}
use trustbridge_contract.Contract.Monad.{
  Env, M, ok, trap, pure, fail, ask, gets, ok_or, ◌>>=◌, ◌>>◌, reject_if, require_auth, modify,
}

-- The bytes of a string literal.
unfoldable pub text : String → List ℕ
text String.[] = []
text (String.◌∷◌ c s) = code c ∷ text s

-- `require_matching_network`: a recorded network that is not the live one is refused.
unfoldable pub network_mismatch : Control → Env → Bool
network_mismatch c env = elim c.network [ none ↦ false | some n ↦ not (n == env.network_id) ]

unfoldable pub require_matching_network : M ⊤
unfolding network_mismatch
require_matching_network = do
  env ← ask (λ e. e)
  s ← gets (λ s. s)
  reject_if (network_mismatch s.control env) ContractError.network_mismatch

unfoldable pub require_initialized : M ⊤
unfolding require_matching_network
require_initialized = do
  s ← gets (λ s. s)
  reject_if (not (is_some s.control.admin)) ContractError.not_initialized
  require_matching_network

unfoldable pub get_admin : M Address
unfolding require_initialized
get_admin = do
  require_initialized
  s ← gets (λ s. s)
  ok_or s.control.admin ContractError.not_initialized

-- `is_admin_caller`: `false` too where `get_admin` fails.
unfoldable pub is_admin_caller : Env → State → Address → Bool
unfolding network_mismatch
is_admin_caller env s a =
    not (network_mismatch s.control env)
    && elim s.control.admin [ none ↦ false | some admin ↦ admin == a ]

unfoldable pub require_not_paused : M ⊤
require_not_paused = do
  s ← gets (λ s. s)
  reject_if (s.control.paused || s.control.emergency_pause) ContractError.paused

abbrev pub is_zero_address : Env → Address → Bool
is_zero_address env a = a == env.zero_address

-- `CONTRACT_VERSION`.
abbrev pub contract_version : VersionTuple
contract_version = (1, 1, 0)

abbrev pub version_or_default : Governance → VersionTuple
version_or_default g = elim g.version [ none ↦ contract_version | some v ↦ v ]

-- `event_domain` records the ledger of the event, and stamps it.
unfoldable pub event_domain : M EventDomain
event_domain env s = (
  ok (record {
    contract_id = env.contract_address;
    network_id = env.network_id;
    contract_version = version_or_default s.governance;
    domain_version = event_domain_version;
  }),
  record s { outbox = record (s.outbox) { last_event_ledger = env.sequence } },
)

unfoldable pub set_last_event_ledger : M ⊤
set_last_event_ledger env s =
    (ok tt, record s { outbox = record (s.outbox) { last_event_ledger = env.sequence } })

unfoldable pub publish : Event → M ⊤
publish e = modify (λ s. record s { outbox = record (s.outbox) { events = e ∷ s.outbox.events } })

-- `x += 1` on u32, where an overflow aborts (`overflow-checks` in Cargo.toml).
abbrev pub add_one : ℕ → Option ℕ
add_one n = if leb u32_max n then none else some (n + 1)

-- The counter of `AuditStats` that an event type adds to, beside `total_events`.
unfoldable pub bump_kind : AuditEventType → AuditStats → Option AuditStats
bump_kind AuditEventType.user_registered st = elim (add_one st.registrations) [
  | none ↦ none
  | some n ↦ some (record st { registrations = n })
]
bump_kind AuditEventType.user_removed st = elim (add_one st.removals) [
  | none ↦ none
  | some n ↦ some (record st { removals = n })
]
bump_kind AuditEventType.user_verified st = elim (add_one st.verifications) [
  | none ↦ none
  | some n ↦ some (record st { verifications = n })
]
bump_kind AuditEventType.unauthorized_attempt st = elim (add_one st.unauthorized_attempts) [
  | none ↦ none
  | some n ↦ some (record st { unauthorized_attempts = n })
]
bump_kind _ st = some st

-- `AuditStats::record_event`; `none` is the abort of an overflow.
unfoldable pub record_event : AuditEventType → AuditStats → Option AuditStats
record_event t st = elim (add_one st.total_events) [
  | none ↦ none
  | some n ↦ bump_kind t (record st { total_events = n })
]

-- `MAX_AUDIT_LOG_ENTRIES`.
abbrev pub max_audit_log_entries : ℕ
max_audit_log_entries = 100

unfoldable pub push_log : AuditLogEntry → List AuditLogEntry → List AuditLogEntry
push_log entry logs =
    (if leb max_audit_log_entries (length logs) then drop 1 logs else logs) ++ entry ∷ []

unfoldable pub log_to : Option AuditStats → AuditLogEntry → M ⊤
log_to none entry env s = (trap, s)
log_to (some st) entry env s = (
  ok tt,
  record s { audit = record (s.audit) { stats = st; logs = push_log entry s.audit.logs } },
)

unfoldable pub push_audit_entry : AuditLogEntry → M ⊤
unfolding log_to
push_audit_entry entry env s = log_to (record_event entry.event_type s.audit.stats) entry env s

-- `AuditLogEntry::new`.
abbrev pub log_entry : AuditEventType → ℕ → Address → AuditLogEntry
log_entry t timestamp actor = record {
  event_type = t;
  timestamp = timestamp;
  actor = some actor;
  target_username = none;
  target_address = none;
  details = none;
}

abbrev pub with_username : Username → AuditLogEntry → AuditLogEntry
with_username u e = record e { target_username = some u }

abbrev pub with_address : Address → AuditLogEntry → AuditLogEntry
with_address a e = record e { target_address = some a }

abbrev pub with_details : List ℕ → AuditLogEntry → AuditLogEntry
with_details d e = record e { details = some d }

-- `AuditConfig::default` where none is stored.
abbrev pub get_audit_config : Audit → AuditConfig
get_audit_config a = elim a.config [
  | none ↦ record { enabled = true; max_events = 1000; log_unauthorized = true }
  | some c ↦ c
]

unfoldable pub record_unauthorized_attempt : Address → List ℕ → M ⊤
record_unauthorized_attempt actor operation env s =
    if not (get_audit_config s.audit).log_unauthorized
    then (ok tt, s)
    else push_audit_entry
        (with_details operation (log_entry AuditEventType.unauthorized_attempt env.timestamp actor))
        env s

-- The refusal that most entry points share: the attempt is noted, and `NotAuthorized` returned.
unfoldable pub refuse : {A : Type 0} → Address → List ℕ → M A
refuse actor operation =
    record_unauthorized_attempt actor operation >> fail ContractError.not_authorized

-- `if cond { record_unauthorized_attempt(..); return Err(NotAuthorized) }`.
unfoldable pub refuse_if : Bool → Address → List ℕ → M ⊤
unfolding refuse
refuse_if b actor operation = elim b [ true ↦ refuse actor operation | false ↦ pure tt ]

-- Role expiry (src/storage.rs:1675): lazily, by the clock.
unfoldable pub is_role_expired : Env → Access → Address → Bool
is_role_expired env x a = elim (x.role_expiry a) [ none ↦ false | some t ↦ leb t env.timestamp ]

unfoldable pub get_role : Env → Access → Address → Option Role
get_role env x a = elim (x.roles a) [
  | none ↦ none
  | some r ↦ if is_role_expired env x a then none else some r
]

unfoldable pub require_role_not_expired : Address → M ⊤
require_role_not_expired a = do
  env ← ask (λ e. e)
  s ← gets (λ s. s)
  reject_if (is_some (s.access.roles a) && is_role_expired env s.access a)
      ContractError.role_expired

-- `get_role(..) == Some(role)`.
unfoldable pub holds_role : Env → Access → Address → Role → Bool
holds_role env x a r = elim (get_role env x a) [ none ↦ false | some r' ↦ role_eq r' r ]
