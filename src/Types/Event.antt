-- ===== src/Types/Event.antt =====
-- The events of src/events.rs, with the fields of each struct in order, and the domain of
-- src/domain.rs that stamps them.
use trustbridge_contract.Base.{ℕ, Bool, Option}
use trustbridge_contract.Username.{Username}
use trustbridge_contract.Types.{Address, Hash, Symbol, VersionTuple}

-- `EventDomain` of src/domain.rs, and `EVENT_DOMAIN_VERSION`.
pub record EventDomain : Type 0 where
  pub contract_id : Address
  pub network_id : Hash
  pub contract_version : VersionTuple
  pub domain_version : ℕ

abbrev pub event_domain_version : ℕ
event_domain_version = 1

pub data Event : Type 0 where
  registered : Username → Address → ℕ → Option Address → EventDomain → Event
  bot_status_changed : Username → Bool → Address → ℕ → EventDomain → Event
  removed : Username → Address → ℕ → EventDomain → Event
  verified : Username → Address → ℕ → EventDomain → Event
  verification_revoked : Username → Address → ℕ → ℕ → EventDomain → Event
  upgraded : Hash → VersionTuple → ℕ → EventDomain → Event
  paused : Address → ℕ → ℕ → EventDomain → Event
  unpaused : Address → ℕ → ℕ → EventDomain → Event
  emergency_paused : Address → ℕ → ℕ → EventDomain → Event
  emergency_cleared : Address → ℕ → EventDomain → Event
  guardian_changed : Option Address → Address → ℕ → Event
  role_grant_pending : Address → ℕ → Address → ℕ → ℕ → Event
  role_grant_cancelled : Address → Address → ℕ → Event
  renamed : Username → Username → Address → Bool → ℕ → Event
  rotation_requested : Username → Address → Address → ℕ → ℕ → Event
  rotation_executed : Username → Address → Address → ℕ → Event
  rotation_cancelled : Username → Address → ℕ → Event
  wasm_staged : Hash → Address → ℕ → Event
  upgrade_attested : Hash → ℕ → ℕ → Event
  attestation_cleared : Hash → ℕ → ℕ → Event
  role_granted : Address → ℕ → Address → ℕ → EventDomain → Event
  role_revoked : Address → Address → ℕ → EventDomain → Event
  batch_remove_proposed : Address → ℕ → ℕ → EventDomain → Event
  batch_remove_executed : Address → Address → ℕ → ℕ → ℕ → EventDomain → Event
  batch_remove_cancelled : Address → Address → ℕ → EventDomain → Event
  challenge_started : Username → Address → ℕ → ℕ → EventDomain → Event
  challenge_cancelled : Username → Address → ℕ → EventDomain → Event
  challenge_completed : Username → Address → ℕ → EventDomain → Event
  staged_wasm_cleared : Hash → Address → ℕ → Event
  upgrade_proposed : ℕ → Address → Hash → ℕ → ℕ → Event
  upgrade_approved : ℕ → Address → ℕ → ℕ → Event
  upgrade_proposal_executed : ℕ → Address → Hash → ℕ → ℕ → Event
  upgrade_proposal_cancelled : ℕ → Address → Hash → ℕ → Event
  verification_configured : Address → Symbol → ℕ → ℕ → ℕ → Event
  audit_config_changed : Address → Bool → ℕ → Bool → ℕ → Event
