-- ===== src/Types/State.antt =====
-- What the contract keeps: the instance and persistent entries of src/storage.rs, grouped by the
-- part that owns them. A missing entry is `none`, or the default that its getter gives. A keyed
-- entry is a function of the key. Time-to-live is not modelled: no entry is archived.
use trustbridge_contract.Base.{ℕ, Bool, Option, List, ◌==◌, bytes_eq, if◌then◌else◌}
use trustbridge_contract.Username.{Username}
use trustbridge_contract.Types.{
  Address, Hash, VersionTuple, Role, PendingRoleGrant, ContributorRecord, WasmProvenance,
  WasmAttestation, PendingRotation, ChallengeRecord, VerifierAllowEntry, VerificationConfig,
  PendingBatchRemove, UpgradeProposal, StagedWasm, AuditLogEntry, AuditConfig, AuditStats,
}
use trustbridge_contract.Types.Event.{Event}

-- A write to a keyed entry, by the host's map.
abbrev pub put_name : {V : Type 0} → Username → V → (Username → V) → Username → V
put_name k v m j = if bytes_eq k j then v else m j

abbrev pub put_id : {V : Type 0} → ℕ → V → (ℕ → V) → ℕ → V
put_id k v m j = if k == j then v else m j

-- `reg`, `count`, `vcount`, `evcount`, `idx`, `chunk`, `chkcnt`, `idx_gen`.
pub record Registry : Type 0 where
  pub records : Username → Option ContributorRecord
  pub count : ℕ
  pub verified_count : ℕ
  pub ever_verified_count : Option ℕ
  pub index : List Username
  pub chunks : ℕ → List Username
  pub chunk_count : ℕ
  pub index_generation : ℕ

-- `lastact`, `vfy_at`, `pend_rev`, `chllng`, `pendrot`, `rotdelay`, `reserved`, `vrfy_cfg`,
-- `brm_thr`, `brm_pend`.
pub record Names : Type 0 where
  pub last_action : Username → ℕ
  pub verified_at : Username → Option ℕ
  pub pending_reverify : Username → Bool
  pub challenges : Username → Option ChallengeRecord
  pub rotations : Username → Option PendingRotation
  pub rotation_delay : ℕ
  pub reserved : List Username
  pub verification_config : Option VerificationConfig
  pub batch_remove_threshold : ℕ
  pub pending_batch_remove : Option PendingBatchRemove

-- `role`, `role_exp`, `role_idx`, `pendrole`, `roldelay`, `vfyallow`, `vfylimit`, `vfyrate`,
-- and the oracle keys, `oraclepk`.
pub record Access : Type 0 where
  pub roles : Address → Option Role
  pub role_expiry : Address → Option ℕ
  pub role_index : List Address
  pub pending_roles : Address → Option PendingRoleGrant
  pub role_delay : ℕ
  pub allowlist : Option (List VerifierAllowEntry)
  pub verify_limit : Option ℕ
  pub verify_rate : Address → Option (ℕ × ℕ)
  pub oracle_allowlist : List Hash

-- `admin`, `network`, `pause`, `pause_rsn`, the older `p_reason`, `emrg_ps`, `emerg_ts`, `guardian`.
pub record Control : Type 0 where
  pub admin : Option Address
  pub network : Option Hash
  pub paused : Bool
  pub pause_reason : Option ℕ
  pub legacy_pause_reason : Option ℕ
  pub emergency_pause : Bool
  pub emergency_pause_ts : ℕ
  pub guardian : Option Address

-- `cdown`, `lastupg`, `ver`, `prov`, `attest`, `att_req`, `upg_thr`, `upg_cnt`, `upg_prop`,
-- `stgwasm`, and the code that the host runs.
pub record Governance : Type 0 where
  pub cooldown : ℕ
  pub last_upgrade : Option ℕ
  pub version : Option VersionTuple
  pub provenance : Option WasmProvenance
  pub attestation : Option WasmAttestation
  pub attestation_required : Bool
  pub upgrade_threshold : Option ℕ
  pub proposal_count : ℕ
  pub proposal : Option UpgradeProposal
  pub staged : Option StagedWasm
  pub current_wasm : Hash

-- `adt_log`, `adt_stat`, `adt_cfg`.
pub record Audit : Type 0 where
  pub logs : List AuditLogEntry
  pub stats : AuditStats
  pub config : Option AuditConfig

-- The published events, the last first, and `evtledger`.
pub record Outbox : Type 0 where
  pub events : List Event
  pub last_event_ledger : ℕ

pub record State : Type 0 where
  pub registry : Registry
  pub names : Names
  pub access : Access
  pub control : Control
  pub governance : Governance
  pub audit : Audit
  pub outbox : Outbox
