-- ===== src/Contract/Run.antt =====
-- The calls of the contract as values, and the state after one of them.
pub mod Frame
pub mod Administered
pub mod Governed
pub mod Invariant
pub mod Paused
use trustbridge_contract.Base.{ℕ, Bool, Option, List}
use trustbridge_contract.Username.{Username}
use trustbridge_contract.Types.{Address, Hash, Role, Symbol, VersionTuple}
use trustbridge_contract.Types.State.{State}
use trustbridge_contract.Oracle.{OracleProof}
use trustbridge_contract.Contract.Monad.{Env, M, pure, ◌>>=◌, ◌>>◌, invoke}
use trustbridge_contract.Base.{⊤}
use trustbridge_contract.Contract.Register
use trustbridge_contract.Contract.Remove
use trustbridge_contract.Contract.Verify
use trustbridge_contract.Contract.Rename
use trustbridge_contract.Contract.Rotation
use trustbridge_contract.Contract.Challenge
use trustbridge_contract.Contract.Control
use trustbridge_contract.Contract.Roles
use trustbridge_contract.Contract.Maintenance
use trustbridge_contract.Contract.Upgrade
use trustbridge_contract.Contract.Staging
use trustbridge_contract.Contract.Multisig
use trustbridge_contract.Contract.Settings
use trustbridge_contract.Contract.Migration
use trustbridge_contract.Contract.Oracle

-- Calls that write to other entries than the registry's.
pub data Admin : Type 0 where
  propose_batch_remove : Address → List Username → Admin
  cancel_batch_remove : Address → Admin
  set_batch_remove_threshold : ℕ → Admin
  set_rotation_delay : ℕ → Admin
  request_address_rotation : Username → Address → Admin
  cancel_address_rotation : Address → Username → Admin
  start_challenge : Address → Username → Admin
  cancel_challenge : Address → Username → Admin
  pause : ℕ → Admin
  unpause : ℕ → Admin
  set_paused : Bool → ℕ → Admin
  set_guardian : Option Address → Admin
  emergency_pause : Address → Admin
  clear_emergency_pause : Admin
  adopt_network_tag : Admin
  set_role : Address → Role → Admin
  set_role_delay : ℕ → Admin
  activate_role : Address → Admin
  cancel_role_grant : Address → Admin
  remove_role : Address → Admin
  set_role_with_expiry : Address → Role → Option ℕ → Admin
  add_verifier : Address → ℕ → Admin
  remove_verifier : Address → Admin
  add_reserved : Username → Admin
  remove_reserved : Username → Admin

-- The calls of upgrades and settings.
pub data Governing : Type 0 where
  attest_upgrade : Hash → ℕ → Governing
  clear_attestation : Governing
  set_attestation_required : Address → Bool → Governing
  upgrade : Hash → Governing
  set_provenance_digests : Option Hash → Option Hash → Governing
  stage_wasm : Address → Hash → Governing
  clear_staged : Address → Governing
  set_upgrade_threshold : Address → ℕ → Governing
  propose_multisig_upgrade : Address → Hash → ℕ → Governing
  approve_upgrade : Address → ℕ → Governing
  execute_upgrade : Address → ℕ → Governing
  cancel_upgrade_proposal : Address → ℕ → Governing
  set_cooldown : ℕ → Governing
  set_verify_limit : ℕ → Governing
  prune_expired_verifiers : Governing
  config_verification : Address → Symbol → ℕ → ℕ → Governing
  set_audit_config : Address → Bool → ℕ → Bool → Governing
  set_oracle_allowlist : List Hash → Governing

pub data Call : Type 0 where
  register : Username → Address → List Address → Call
  register_sponsored : Username → Address → Address → Call
  remove : Address → Username → Call
  batch_remove : Address → List Username → Call
  execute_batch_remove : Address → Call
  verify : Address → Username → Call
  batch_verify : Address → List Username → Call
  revoke_verification : Address → Username → ℕ → Call
  set_bot_status : Address → Username → Bool → Call
  rename : Address → Username → Username → Call
  execute_address_rotation : Username → Call
  complete_challenge : Address → Username → Call
  compact_index : Call
  repair_index : Bool → Call
  verify_with_oracle_proof : Username → OracleProof → Call
  migrate : VersionTuple → Call
  administer : Admin → Call
  govern : Governing → Call

unfoldable pub administration : Admin → M ⊤
administration (Admin.propose_batch_remove a us) = Remove.propose_batch_remove a us
administration (Admin.cancel_batch_remove a) = Remove.cancel_batch_remove a
administration (Admin.set_batch_remove_threshold n) = Remove.set_batch_remove_threshold n
administration (Admin.set_rotation_delay n) = Rotation.set_rotation_delay n
administration (Admin.request_address_rotation u a) = Rotation.request_address_rotation u a
administration (Admin.cancel_address_rotation a u) = Rotation.cancel_address_rotation a u
administration (Admin.start_challenge a u) = Challenge.start_challenge a u
administration (Admin.cancel_challenge a u) = Challenge.cancel_challenge a u
administration (Admin.pause n) = Control.pause n
administration (Admin.unpause n) = Control.unpause n
administration (Admin.set_paused b n) = Control.set_paused b n
administration (Admin.set_guardian g) = Control.set_guardian g
administration (Admin.emergency_pause a) = Control.emergency_pause a
administration Admin.clear_emergency_pause = Control.clear_emergency_pause
administration Admin.adopt_network_tag = Control.adopt_network_tag
administration (Admin.set_role a r) = Roles.set_role a r
administration (Admin.set_role_delay n) = Roles.set_role_delay n
administration (Admin.activate_role a) = Roles.activate_role a
administration (Admin.cancel_role_grant a) = Roles.cancel_role_grant a
administration (Admin.remove_role a) = Roles.remove_role a
administration (Admin.set_role_with_expiry a r e) = Roles.set_role_with_expiry a r e
administration (Admin.add_verifier a e) = Roles.add_verifier a e
administration (Admin.remove_verifier a) = Roles.remove_verifier a
administration (Admin.add_reserved u) = Maintenance.add_reserved u
administration (Admin.remove_reserved u) = Maintenance.remove_reserved u

unfoldable pub governing : Governing → M ⊤
governing (Governing.attest_upgrade h e) = Upgrade.attest_upgrade h e
governing Governing.clear_attestation = Upgrade.clear_attestation
governing (Governing.set_attestation_required a b) = Upgrade.set_attestation_required a b
governing (Governing.upgrade h) = Upgrade.upgrade h
governing (Governing.set_provenance_digests a b) = Upgrade.set_provenance_digests a b
governing (Governing.stage_wasm a h) = Staging.stage_wasm a h
governing (Governing.clear_staged a) = Staging.clear_staged a
governing (Governing.set_upgrade_threshold a n) = Multisig.set_upgrade_threshold a n
governing (Governing.propose_multisig_upgrade a h d) = Multisig.propose_multisig_upgrade a h d
governing (Governing.approve_upgrade a n) = Multisig.approve_upgrade a n
governing (Governing.execute_upgrade a n) = Multisig.execute_upgrade a n
governing (Governing.cancel_upgrade_proposal a n) = Multisig.cancel_upgrade_proposal a n
governing (Governing.set_cooldown n) = Settings.set_cooldown n
governing (Governing.set_verify_limit n) = Settings.set_verify_limit n
governing Governing.prune_expired_verifiers = Settings.prune_allowlist >> pure tt
governing (Governing.config_verification a n e m) = Settings.config_verification a n e m
governing (Governing.set_audit_config a b n c) = Settings.set_audit_config a b n c
governing (Governing.set_oracle_allowlist hs) = Oracle.set_oracle_allowlist hs

-- The state that the host keeps after the call.
unfoldable pub run : Call → Env → State → State
run (Call.register u a fs) = invoke (Register.register u a fs)
run (Call.register_sponsored u a sp) = invoke (Register.register_sponsored u a sp)
run (Call.remove a u) = invoke (Remove.remove a u)
run (Call.batch_remove a us) = invoke (Remove.batch_remove a us)
run (Call.execute_batch_remove a) = invoke (Remove.execute_batch_remove a)
run (Call.verify a u) = invoke (Verify.verify a u)
run (Call.batch_verify a us) = invoke (Verify.batch_verify a us)
run (Call.revoke_verification a u n) = invoke (Verify.revoke_verification a u n)
run (Call.set_bot_status a u b) = invoke (Verify.set_bot_status a u b)
run (Call.rename a u v) = invoke (Rename.rename a u v)
run (Call.execute_address_rotation u) = invoke (Rotation.execute_address_rotation u)
run (Call.complete_challenge a u) = invoke (Challenge.complete_challenge a u)
run Call.compact_index = invoke Maintenance.compact_index
run (Call.repair_index b) = invoke (Maintenance.repair_index b)
run (Call.verify_with_oracle_proof u p) = invoke (Oracle.verify_with_oracle_proof u p)
run (Call.migrate v) = invoke (Migration.migrate v)
run (Call.administer a) = invoke (administration a)
run (Call.govern g) = invoke (governing g)
