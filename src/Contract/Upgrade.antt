-- ===== src/Contract/Upgrade.antt =====
-- Upgrades (src/lib.rs:1211): the attestation of a hash, the cooldown, the upgrade by the admin,
-- and the record of what was deployed.
pub mod Effect
use trustbridge_contract.Base.{
  ℕ, Bool, true, false, not, Option, none, some, List, [], ◌∷◌, ⊤, ltb, leb, ◌==◌, if◌then◌else◌,
  saturating_add_u64,
}
use trustbridge_contract.Error.{ContractError}
use trustbridge_contract.Types.{
  Address, Hash, VersionTuple, AuditEventType, WasmProvenance, WasmAttestation,
}
use trustbridge_contract.Types.Event.{Event}
use trustbridge_contract.Types.State.{State, Governance}
use trustbridge_contract.Contract.Monad.{
  Env, M, ok, trap, pure, fail, ask, gets, ok_or, ◌>>=◌, ◌>>◌, reject_if, require_auth,
  on_governance,
}
use trustbridge_contract.Contract.Guards.{
  require_initialized, require_not_paused, get_admin, publish, push_audit_entry, log_entry,
  refuse_if, text, event_domain, version_or_default,
}

unfoldable pub attest_upgrade : Hash → ℕ → M ⊤
attest_upgrade wasm_hash expires_at = do
  require_initialized
  admin ← get_admin
  require_auth admin
  env ← ask (λ e. e)
  reject_if (leb expires_at env.timestamp) ContractError.attestation_expired
  on_governance (λ g. record g {
    attestation = some (record {
      wasm_hash = wasm_hash;
      expires_at = expires_at;
      attested_by = admin;
      attested_at = env.timestamp;
    });
  })
  publish (Event.upgrade_attested wasm_hash expires_at env.timestamp)

-- `remove_wasm_attestation`.
abbrev pub remove_attestation : Governance → Governance
remove_attestation g = record g { attestation = none }

unfoldable pub withdraw_attestation : Option WasmAttestation → ℕ → M ⊤
withdraw_attestation none timestamp = pure tt
withdraw_attestation (some a) timestamp = do
  on_governance remove_attestation
  publish (Event.attestation_cleared a.wasm_hash a.expires_at timestamp)

unfoldable pub clear_attestation : M ⊤
clear_attestation = do
  require_initialized
  admin ← get_admin
  require_auth admin
  env ← ask (λ e. e)
  s ← gets (λ s. s)
  withdraw_attestation s.governance.attestation env.timestamp

unfoldable pub set_attestation_required : Address → Bool → M ⊤
set_attestation_required caller required = do
  require_initialized
  require_auth caller
  admin ← get_admin
  refuse_if (not (caller == admin)) caller (text "set_attestation_required")
  on_governance (λ g. record g { attestation_required = required })

-- The cooldown is still running. A contract that was never upgraded has nothing to wait for.
unfoldable pub cooldown_runs : Governance → ℕ → Bool
cooldown_runs g now =
    if g.cooldown == 0
    then false
    else elim g.last_upgrade [ none ↦ false | some t ↦ ltb now (saturating_add_u64 t g.cooldown) ]

unfoldable pub require_cooldown_elapsed : ℕ → M ⊤
require_cooldown_elapsed now = do
  s ← gets (λ s. s)
  reject_if (cooldown_runs s.governance now) ContractError.cooldown_active

-- A lapsed attestation is removed, and the call fails.
unfoldable pub drop_if_lapsed : Bool → M ⊤
drop_if_lapsed true = on_governance remove_attestation >> fail ContractError.attestation_expired
drop_if_lapsed false = pure tt

unfoldable pub spend_attestation : Option WasmAttestation → Bool → Hash → ℕ → M Bool
spend_attestation none required new_wasm_hash now = do
  reject_if required ContractError.attestation_required
  pure false
spend_attestation (some a) required new_wasm_hash now = do
  drop_if_lapsed (ltb a.expires_at now)
  reject_if (not (a.wasm_hash == new_wasm_hash)) ContractError.unattested_wasm
  on_governance remove_attestation
  pure true

unfoldable pub consume_attestation : Hash → ℕ → M Bool
consume_attestation new_wasm_hash now = do
  s ← gets (λ s. s)
  spend_attestation s.governance.attestation s.governance.attestation_required new_wasm_hash now

abbrev pub version_parts : VersionTuple → List ℕ
version_parts (major, minor, patch) = major ∷ minor ∷ patch ∷ []

abbrev pub deployed_hash : Governance → Option Hash
deployed_hash g = elim g.provenance [ none ↦ none | some p ↦ some p.wasm_hash ]

-- The provenance of the new code, written before the swap.
abbrev pub provenance_of : Address → Hash → Bool → ℕ → Governance → WasmProvenance
provenance_of by h attested now g = record {
  wasm_hash = h;
  previous_wasm_hash = deployed_hash g;
  upgraded_by = by;
  upgraded_at = now;
  version = version_parts (version_or_default g);
  attested = attested;
  sbom_hash = none;
  source_hash = none;
}

unfoldable pub record_provenance : Address → Hash → Bool → ℕ → M ⊤
record_provenance by h attested now =
    on_governance (λ g. record g { provenance = some (provenance_of by h attested now g) })

-- `update_current_contract_wasm`: the host traps on a hash whose code is not uploaded.
unfoldable pub update_current_contract_wasm : Hash → M ⊤
update_current_contract_wasm h env s =
    if env.uploaded h
    then (ok tt, record s { governance = record (s.governance) { current_wasm = h } })
    else (trap, s)

abbrev pub set_last_upgrade : ℕ → Governance → Governance
set_last_upgrade now g = record g { last_upgrade = some now }

unfoldable pub announce_upgrade : Address → Hash → ℕ → M ⊤
announce_upgrade by h now = do
  s ← gets (λ s. s)
  d ← event_domain
  publish (Event.upgraded h (version_or_default s.governance) now d)
  push_audit_entry (log_entry AuditEventType.contract_upgraded now by)

unfoldable pub deploy : Address → Hash → Bool → ℕ → M ⊤
unfolding record_provenance announce_upgrade
deploy admin h attested now = do
  record_provenance admin h attested now
  update_current_contract_wasm h
  on_governance (set_last_upgrade now)
  announce_upgrade admin h now

unfoldable pub upgrade : Hash → M ⊤
unfolding require_cooldown_elapsed consume_attestation
upgrade new_wasm_hash = do
  require_initialized
  require_not_paused
  admin ← get_admin
  require_auth admin
  env ← ask (λ e. e)
  require_cooldown_elapsed env.timestamp
  attested ← consume_attestation new_wasm_hash env.timestamp
  deploy admin new_wasm_hash attested env.timestamp

-- A digest that is given replaces the stored one.
abbrev pub or_stored : Option Hash → Option Hash → Option Hash
or_stored none stored = stored
or_stored (some h) stored = some h

unfoldable pub set_provenance_digests : Option Hash → Option Hash → M ⊤
set_provenance_digests sbom_hash source_hash = do
  require_initialized
  admin ← get_admin
  require_auth admin
  s ← gets (λ s. s)
  p ← ok_or s.governance.provenance ContractError.provenance_missing
  on_governance (λ g. record g {
    provenance = some (record p {
      sbom_hash = or_stored sbom_hash p.sbom_hash;
      source_hash = or_stored source_hash p.source_hash;
    });
  })

unfoldable pub assert_build : Hash → M ⊤
assert_build h = do
  require_initialized
  s ← gets (λ s. s)
  p ← ok_or s.governance.provenance ContractError.provenance_missing
  reject_if (not (p.wasm_hash == h)) ContractError.provenance_mismatch
