-- ===== src/Types.antt =====
-- The stored types of src/storage.rs, src/multisig_upgrade.rs, src/staged_wasm.rs and src/audit.rs.
-- An `Address`, a `Symbol` and a `BytesN<32>` are opaque to the contract, which only compares
-- them: they are numbers here.
pub mod Event
pub mod State
use trustbridge_contract.Base.{
  ℕ, Bool, true, false, Option, none, some, List, [], ◌∷◌, ◌==◌, ◌||◌, if◌then◌else◌,
}
use trustbridge_contract.Username.{Username}

abbrev pub Address : Type 0
Address = ℕ

abbrev pub Hash : Type 0
Hash = ℕ

abbrev pub Symbol : Type 0
Symbol = ℕ

abbrev pub VersionTuple : Type 0
VersionTuple = ℕ × ℕ × ℕ

-- `enum Role`, with its discriminants.
pub data Role : Type 0 where
  admin upgrader verifier revoker : Role

abbrev pub role_code : Role → ℕ
role_code Role.admin = 1
role_code Role.upgrader = 2
role_code Role.verifier = 3
role_code Role.revoker = 4

-- `==` of `Role`.
abbrev pub role_eq : Role → Role → Bool
role_eq a b = role_code a == role_code b

pub record PendingRoleGrant : Type 0 where
  pub role : Role
  pub activate_at : ℕ

-- `enum PauseReason`, `PauseReason::is_valid` and `PauseReason::from_code`.
pub data PauseReason : Type 0 where
  maintenance security_incident regulatory_hold unpause other : PauseReason

unfoldable pub pause_reason_is_valid : ℕ → Bool
pause_reason_is_valid code = code == 1 || code == 2 || code == 3 || code == 4 || code == 99

unfoldable pub pause_reason_from_code : ℕ → Option PauseReason
pause_reason_from_code code =
    if code == 1
    then some PauseReason.maintenance
    else if code == 2
    then some PauseReason.security_incident
    else if code == 3
    then some PauseReason.regulatory_hold
    else if code == 4
    then some PauseReason.unpause
    else if code == 99
    then some PauseReason.other
    else none

abbrev pub pause_reason_code : PauseReason → ℕ
pause_reason_code PauseReason.maintenance = 1
pause_reason_code PauseReason.security_incident = 2
pause_reason_code PauseReason.regulatory_hold = 3
pause_reason_code PauseReason.unpause = 4
pause_reason_code PauseReason.other = 99

-- `RevokeReason::is_valid` of src/lib.rs.
unfoldable pub revoke_reason_is_valid : ℕ → Bool
revoke_reason_is_valid code =
    code == 1 || code == 2 || code == 3 || code == 4 || code == 5 || code == 6 || code == 99

pub record ContributorRecord : Type 0 where
  pub stellar_address : Address
  pub payout_address : Address
  pub registered_at : ℕ
  pub verified : Bool
  pub is_bot : Bool

pub record WasmProvenance : Type 0 where
  pub wasm_hash : Hash
  pub previous_wasm_hash : Option Hash
  pub upgraded_by : Address
  pub upgraded_at : ℕ
  pub version : List ℕ
  pub attested : Bool
  pub sbom_hash : Option Hash
  pub source_hash : Option Hash

pub record WasmAttestation : Type 0 where
  pub wasm_hash : Hash
  pub expires_at : ℕ
  pub attested_by : Address
  pub attested_at : ℕ

pub record PendingRotation : Type 0 where
  pub new_address : Address
  pub requested_at : ℕ
  pub executable_at : ℕ

pub record ChallengeRecord : Type 0 where
  pub challenged_by : Address
  pub started_at : ℕ
  pub resolve_after : ℕ

pub record VerifierAllowEntry : Type 0 where
  pub address : Address
  pub expires_at : ℕ
  pub added_at : ℕ

pub record RoleHolder : Type 0 where
  pub address : Address
  pub role : Role

pub record VerificationConfig : Type 0 where
  pub attestation : Symbol
  pub expires_in : ℕ
  pub threshold : ℕ

pub record PendingBatchRemove : Type 0 where
  pub usernames : List Username
  pub proposed_by : Address
  pub proposed_at : ℕ

pub record RepairReport : Type 0 where
  pub stored_count : ℕ
  pub recomputed_count : ℕ
  pub stored_verified : ℕ
  pub recomputed_verified : ℕ
  pub drifted : Bool
  pub applied : Bool

-- `UpgradeProposal` of src/multisig_upgrade.rs.
pub record UpgradeProposal : Type 0 where
  pub id : ℕ
  pub wasm_hash : Hash
  pub proposed_by : Address
  pub proposed_at : ℕ
  pub executable_at : ℕ
  pub approvers : List Address

-- `StagedWasm` of src/staged_wasm.rs.
pub record StagedWasm : Type 0 where
  pub wasm_hash : Hash
  pub staged_by : Address
  pub staged_at : ℕ

-- `AuditEventType`, `AuditLogEntry`, `AuditConfig` and `AuditStats` of src/audit.rs. Free text in
-- `details` is the name that the code writes there.
pub data AuditEventType : Type 0 where
  contract_initialized user_registered user_removed user_verified admin_action : AuditEventType
  unauthorized_attempt data_exported verification_revoked user_renamed contract_paused
        contract_unpaused role_changed contract_upgraded audit_config_changed :
      AuditEventType

pub record AuditLogEntry : Type 0 where
  pub event_type : AuditEventType
  pub timestamp : ℕ
  pub actor : Option Address
  pub target_username : Option Username
  pub target_address : Option Address
  pub details : Option (List ℕ)

pub record AuditConfig : Type 0 where
  pub enabled : Bool
  pub max_events : ℕ
  pub log_unauthorized : Bool

pub record AuditStats : Type 0 where
  pub total_events : ℕ
  pub registrations : ℕ
  pub removals : ℕ
  pub verifications : ℕ
  pub unauthorized_attempts : ℕ
