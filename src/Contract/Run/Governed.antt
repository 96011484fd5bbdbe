-- ===== src/Contract/Run/Governed.antt =====
-- The calls of upgrades and settings leave the registry alone.
use trustbridge_contract.Base.{ℕ, Bool, true, false, Option, none, some, arith}
use trustbridge_contract.Types.{Address, Hash, WasmAttestation, StagedWasm}
use trustbridge_contract.Contract.Run.{Governing, governing}
use trustbridge_contract.Contract.Run.Frame.{Keeps, keeps, keeping}
use trustbridge_contract.Contract.Upgrade
use trustbridge_contract.Contract.Staging
use trustbridge_contract.Contract.Multisig
use trustbridge_contract.Contract.Settings
use trustbridge_contract.Contract.Oracle

withdraw_attestation-Keeps :
    (o : Option WasmAttestation) (t : ℕ) → Keeps (Upgrade.withdraw_attestation o t)
unfolding Upgrade.withdraw_attestation
withdraw_attestation-Keeps none t = search keeping depth 20
withdraw_attestation-Keeps (some a) t = search keeping depth 20

drop_if_lapsed-Keeps : (b : Bool) → Keeps (Upgrade.drop_if_lapsed b)
unfolding Upgrade.drop_if_lapsed
drop_if_lapsed-Keeps true = search keeping depth 20
drop_if_lapsed-Keeps false = search keeping depth 20

spend_attestation-Keeps :
    (o : Option WasmAttestation) (b : Bool) (h : Hash) (t : ℕ)
    → Keeps (Upgrade.spend_attestation o b h t)
unfolding Upgrade.spend_attestation
spend_attestation-Keeps none b h t = search keeping depth 20
spend_attestation-Keeps (some a) b h t = search (keeping, drop_if_lapsed-Keeps) depth 20

update_current_contract_wasm-Keeps : (h : Hash) → Keeps (Upgrade.update_current_contract_wasm h)
unfolding Upgrade.update_current_contract_wasm
update_current_contract_wasm-Keeps h = keeps λ env s. ground arith

unstage-Keeps : (o : Option StagedWasm) (a : Address) (t : ℕ) → Keeps (Staging.unstage o a t)
unfolding Staging.unstage
unstage-Keeps none a t = search keeping depth 20
unstage-Keeps (some e) a t = search keeping depth 20

ruleset cases = (
  withdraw_attestation-Keeps, spend_attestation-Keeps, update_current_contract_wasm-Keeps,
  unstage-Keeps,
)

pub governing-Keeps : (g : Governing) → Keeps (governing g)
unfolding governing Upgrade.attest_upgrade Upgrade.clear_attestation
    Upgrade.set_attestation_required Upgrade.upgrade Upgrade.require_cooldown_elapsed
    Upgrade.consume_attestation Upgrade.deploy Upgrade.record_provenance Upgrade.announce_upgrade
    Upgrade.set_provenance_digests Staging.stage_wasm Staging.clear_staged Staging.require_upgrader
    Staging.require_staged_wasm_consistent Multisig.set_upgrade_threshold
    Multisig.propose_multisig_upgrade Multisig.create_upgrade_proposal Multisig.announce_proposal
    Multisig.approve_upgrade Multisig.record_approval Multisig.announce_approval
    Multisig.execute_upgrade Multisig.require_proposal_executable Multisig.deploy_proposal
    Multisig.cancel_upgrade_proposal Multisig.withdraw_proposal Settings.set_cooldown
    Settings.set_verify_limit Settings.prune_allowlist Settings.config_verification
    Settings.set_audit_config Oracle.set_oracle_allowlist
governing-Keeps (Governing.upgrade h) = search (keeping, cases) depth 80
governing-Keeps _ = search (keeping, cases) depth 80
