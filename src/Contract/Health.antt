-- ===== src/Contract/Health.antt =====
-- What monitors read (src/lib.rs:3139): health, probes, statistics, record proofs, the expiry of a
-- verification, pause reason and cooldowns. Getters that return one stored entry are fields of
-- the state.
pub mod Cooldown
use trustbridge_contract.Base.{
  ℕ, ◌-◌, Bool, true, false, not, ◌&&◌, Option, none, some, List, ltb, ◌==◌, is_some, if◌then◌else◌,
  saturating_add_u64,
}
use trustbridge_contract.Error.{ContractError}
use trustbridge_contract.Username.{Username}
use trustbridge_contract.Types.{
  Symbol, ContributorRecord, PauseReason, pause_reason_from_code, WasmAttestation,
}
use trustbridge_contract.Types.State.{State, Registry, Names, Control, Governance}
use trustbridge_contract.Registry.{get_record, get_ever_verified_count}
use trustbridge_contract.Names.{is_verification_expired}
use trustbridge_contract.Contract.Monad.{Env, M, pure, ask, gets, ok_or, ◌>>=◌, ◌>>◌, fail}
use trustbridge_contract.Contract.Guards.{require_initialized, version_or_default}
use trustbridge_contract.Contract.Upgrade.{version_parts}

pub record Stats : Type 0 where
  pub total : ℕ
  pub verified : ℕ
  pub ever_verified : ℕ

abbrev pub build_stats : ℕ → ℕ → ℕ → Stats
build_stats total verified ever_verified = record {
  total = total;
  verified = verified;
  ever_verified = ever_verified;
}

unfoldable pub get_stats : Registry → Stats
get_stats r = build_stats r.count r.verified_count (get_ever_verified_count r)

pub record HealthSnapshot : Type 0 where
  pub paused : Bool
  pub version : List ℕ
  pub total : ℕ
  pub verified : ℕ
  pub cooldown_secs : ℕ
  pub cooldown_remaining_secs : ℕ
  pub attestation_present : Bool

-- `get_last_upgrade`: zero where there was none.
abbrev pub get_last_upgrade : Governance → ℕ
get_last_upgrade g = elim g.last_upgrade [ none ↦ 0 | some t ↦ t ]

unfoldable pub cooldown_remaining : Governance → ℕ → ℕ
cooldown_remaining g now =
    if ltb 0 g.cooldown then saturating_add_u64 (get_last_upgrade g) g.cooldown - now else 0

unfoldable pub attestation_present : Option WasmAttestation → ℕ → Bool
attestation_present none now = false
attestation_present (some a) now = ltb now a.expires_at

unfoldable pub snapshot : ℕ → State → HealthSnapshot
snapshot now s = record {
  paused = s.control.paused;
  version = version_parts (version_or_default s.governance);
  total = (get_stats s.registry).total;
  verified = (get_stats s.registry).verified;
  cooldown_secs = s.governance.cooldown;
  cooldown_remaining_secs = cooldown_remaining s.governance now;
  attestation_present = attestation_present s.governance.attestation now;
}

unfoldable pub get_health : M HealthSnapshot
get_health = do
  require_initialized
  env ← ask (λ e. e)
  s ← gets (λ s. s)
  pure (snapshot env.timestamp s)

pub record HealthProbes : Type 0 where
  pub paused : Bool
  pub admin_set : Bool
  pub index_gen : ℕ

unfoldable pub get_health_probes : State → HealthProbes
get_health_probes s = record {
  paused = s.control.paused;
  admin_set = is_some s.control.admin;
  index_gen = s.registry.index_generation;
}

-- `TTL_THRESHOLD` and `TTL_BUMP`: 30 and 90 days of ledgers.
abbrev pub ttl_threshold : ℕ
ttl_threshold = 518400

abbrev pub ttl_bump : ℕ
ttl_bump = 1555200

-- The constant prefix of the key, which every proof reports, is left out.
pub record RecordProof : Type 0 where
  pub present : Bool
  pub verified : Bool
  pub registered_at : ℕ
  pub as_of_ledger : ℕ
  pub ttl_threshold_ledgers : ℕ
  pub ttl_bump_ledgers : ℕ

unfoldable pub build_record_proof : Env → Registry → Username → RecordProof
build_record_proof env r u = elim (get_record r u) [
  | none ↦ record {
    present = false;
    verified = false;
    registered_at = 0;
    as_of_ledger = env.sequence;
    ttl_threshold_ledgers = ttl_threshold;
    ttl_bump_ledgers = ttl_bump;
  }
  | some c ↦ record {
    present = true;
    verified = c.verified;
    registered_at = c.registered_at;
    as_of_ledger = env.sequence;
    ttl_threshold_ledgers = ttl_threshold;
    ttl_bump_ledgers = ttl_bump;
  }
]

unfoldable pub get_address_if_verified : Username → M ContributorRecord
get_address_if_verified u = do
  s ← gets (λ s. s)
  c ← ok_or (get_record s.registry u) ContractError.not_registered
  if c.verified then pure c else fail ContractError.not_verified

unfoldable pub is_verification_active : Env → State → Username → Bool
is_verification_active env s u = elim (get_record s.registry u) [
  | none ↦ false
  | some c ↦ c.verified && not (is_verification_expired env.timestamp s.names u)
]

-- The end of a verification that has one: each `?` and early return is a `none`.
unfoldable pub expiry_of : Names → Username → Option ℕ
expiry_of n u = elim n.verification_config [
  | none ↦ none
  | some c ↦ if c.expires_in == 0 then none else elim (n.verified_at u) [
    | none ↦ none
    | some t ↦ some (saturating_add_u64 t c.expires_in)
  ]
]

unfoldable pub get_verification_expiry : State → Username → Option ℕ
get_verification_expiry s u = elim (get_record s.registry u) [
  | none ↦ none
  | some c ↦ if c.verified then expiry_of s.names u else none
]

-- `PauseReason::from_code`, and `Other` where there is no reason.
abbrev pub reason_of : Option ℕ → PauseReason
reason_of none = PauseReason.other
reason_of (some code) = elim (pause_reason_from_code code) [ none ↦ PauseReason.other | some r ↦ r ]

-- The code under the older key where the newer has none.
unfoldable pub get_pause_reason : Control → PauseReason
get_pause_reason c =
    reason_of (elim c.pause_reason [ none ↦ c.legacy_pause_reason | some n ↦ some n ])
