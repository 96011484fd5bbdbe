-- ===== src/Contract/Multisig/Executed.antt =====
-- The states that the multisig flow reaches, and what an execution means there.
use trustbridge_contract.Base.{
  ℕ, ◌≡◌, ◌≢◌, ◌≤◌, ◌<◌, refl, Bool, Option, none, some, true, false, not, ◌&&◌, arith, is_some,
  length,
}
use trustbridge_contract.Types.{Address, Hash, UpgradeProposal, StagedWasm, WasmAttestation}
use trustbridge_contract.Types.State.{State, Governance}
use trustbridge_contract.Contract.Monad.{Env, invoke}
use trustbridge_contract.Contract.Rules.{OnOk, Returns-OnOk, after_invoke, end, weaken, always}
use trustbridge_contract.Contract.Upgrade.Effect.{deployed}
use trustbridge_contract.Contract.Staging.{stages_other, clear_staged_wasm}
use trustbridge_contract.Contract.Multisig.{
  execute_upgrade, get_upgrade_threshold, clear_upgrade_proposal, deploy_proposal,
  max_upgrade_signers,
}
use trustbridge_contract.Contract.Multisig.Machine.{Signing, Pending, Life-Pending, Signed}
use trustbridge_contract.Contract.Multisig.Effect.{MayUpgrade, execute-Returns, deploy-deployed}
use trustbridge_contract.Contract.Multisig.Signers.{signing, signing-Life, enough}

-- States reached from one without a proposal by calls of the multisig flow and by any steps that
-- leave the proposal alone.
pub data Reached : State → Type 0 where
  fresh : {s : State} → s.governance.proposal ≡ none → Reached s
  call :
      {s s' : State} (c : Signing) (env : Env)
      → Reached s
      → s' ≡ invoke (signing c) env s
      → Reached s'
  other : {s s' : State} → Reached s → s'.governance.proposal ≡ s.governance.proposal → Reached s'

signing-Pending :
    (c : Signing) (env : Env) (s : State)
    → Pending s.governance.proposal
    → Pending (invoke (signing c) env s).governance.proposal
unfolding invoke
signing-Pending c env s h =
    after_invoke (λ s'. Pending s'.governance.proposal) (signing c) env s h
      (end (
        weaken _ (λ s'. Pending s'.governance.proposal) (signing c env s) (signing-Life env s c)
          λ s' step. Life-Pending _ _ _ _ _ step h))

pub Reached-Pending : {s : State} → Reached s → Pending s.governance.proposal
Reached-Pending (Reached.fresh e) = rw e tt
Reached-Pending (Reached.call {s} c env r e) = rw e (signing-Pending c env s (Reached-Pending r))
Reached-Pending (Reached.other r e) = rw e (Reached-Pending r)

-- What an execution had to have.
pub record Executable (caller : Address) (id : ℕ) (p : UpgradeProposal) (env : Env) (s : State)
    : Type 0 where
  pub may : MayUpgrade caller env s
  pub authorized : env.authorized caller ≡ true
  pub pending : s.governance.proposal ≡ some p
  pub same : p.id ≡ id
  pub due : p.executable_at ≤ env.timestamp
  pub enough : get_upgrade_threshold s.governance ≤ length p.approvers
  pub signed : Signed p
  pub staged : (e : StagedWasm) → s.governance.staged ≡ some e → e.wasm_hash ≡ p.wasm_hash
  pub attested : s.governance.attestation_required ≡ true → s.governance.attestation ≢ none

staged_same :
    (g : Governance) (h : Hash) (e : StagedWasm)
    → stages_other g h ≡ false
    → g.staged ≡ some e
    → e.wasm_hash ≡ h
unfolding stages_other
staged_same g h e p q = ground (arith, p, q)

attested_if_required :
    (b : Bool) (o : Option WasmAttestation) → (b && not (is_some o)) ≡ false → b ≡ true → o ≢ none
attested_if_required b o h e p = ground arith

pending-Signed :
    (o : Option UpgradeProposal) (p : UpgradeProposal) → Pending o → o ≡ some p → Signed p
pending-Signed none p h e = cc
pending-Signed (some q) p h e = ground arith

-- When `execute_upgrade` returns in a state that the multisig flow reaches, the caller had
-- authorized it and was the admin or held an unexpired upgrader role, the pending proposal has the
-- given identifier, its delay is over, its signers are distinct, at most twenty and at least as
-- many as the threshold, a staged hash is the one of the proposal, and an attestation is there
-- where one is required; afterwards the code of the proposal runs, its provenance and the time of
-- the upgrade are recorded, and neither a proposal nor a staged hash is left, while the other
-- governance entries stay.
pub execute_upgrade-Executable :
    (caller : Address) (id : ℕ) (env : Env) (s : State)
    → Reached s
    → OnOk
        (λ s'.
          (p : UpgradeProposal) × Executable caller id p env s
          × (s'.governance
              ≡ clear_staged_wasm (
                  clear_upgrade_proposal
                    (deployed caller p.wasm_hash false env.timestamp s.governance))))
        (execute_upgrade caller id env s)
execute_upgrade-Executable caller id env s r = Returns-OnOk (
    execute-Returns _ caller id env s λ may auth p e same due signers staged attested.
      deploy-deployed
        (λ g.
          (p : UpgradeProposal) × Executable caller id p env s
          × (g
              ≡ clear_staged_wasm (
                  clear_upgrade_proposal
                    (deployed caller p.wasm_hash false env.timestamp s.governance))))
        caller env s p env.timestamp
        (
          p,
          record {
            may = may;
            authorized = auth;
            pending = e;
            same = ground (arith, same);
            due = ground (arith, due);
            enough = enough env s p signers;
            signed = pending-Signed _ p (Reached-Pending r) e;
            staged = λ w. staged_same s.governance p.wasm_hash w staged;
            attested = attested_if_required _ _ attested;
          },
          refl,
        ))

too_many :
    (t : ℕ) (p : UpgradeProposal) → Signed p → t ≤ length p.approvers → max_upgrade_signers < t → ⊥
too_many t p h k l = omega (arith, h.fits)

-- In a state that the multisig flow reaches, `execute_upgrade` never returns while the threshold
-- is above twenty, whoever calls it and whenever.
pub execute_upgrade-never :
    (caller : Address) (id : ℕ) (env : Env) (s : State)
    → Reached s
    → max_upgrade_signers < get_upgrade_threshold s.governance
    → OnOk (λ s'. ⊥) (execute_upgrade caller id env s)
execute_upgrade-never caller id env s r high = Returns-OnOk (
    execute-Returns _ caller id env s λ may auth p e same due signers staged attested.
      always ⊥ (deploy_proposal caller p env.timestamp) env s
        (too_many _ p (pending-Signed _ p (Reached-Pending r) e) (enough env s p signers) high))
