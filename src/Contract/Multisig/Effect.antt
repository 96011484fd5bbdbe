-- ===== src/Contract/Multisig/Effect.antt =====
-- Each call of the multisig flow makes one step of the life of the proposal.
use trustbridge_contract.Base.{
  ℕ, List, ⊤, ◌≡◌, Bool, some, true, false, not, ◌&&◌, ◌||◌, arith, ltb, ◌==◌, is_some,
}
use trustbridge_contract.Types.{Address, Hash, UpgradeProposal, Role}
use trustbridge_contract.Types.State.{State, Governance}
use trustbridge_contract.Contract.Monad.{Env, M, ◌>>=◌}
use trustbridge_contract.Contract.Rules.{Returns, steps, reading}
use trustbridge_contract.Contract.Writes.{writes, write_nested, write_pure}
use trustbridge_contract.Contract.Guards.{holds_role}
use trustbridge_contract.Contract.Guards.Same.{checks, step_refuse}
use trustbridge_contract.Contract.Upgrade.{record_provenance, announce_upgrade}
use trustbridge_contract.Contract.Upgrade.Effect.{write_wasm, deployed}
use trustbridge_contract.Contract.Staging.{
  require_upgrader, require_staged_wasm_consistent, stages_other, clear_staged_wasm,
}
use trustbridge_contract.Contract.Multisig.{
  propose_multisig_upgrade, approve_upgrade, execute_upgrade, cancel_upgrade_proposal,
  create_upgrade_proposal, record_approval, approved_by, has_approved, require_proposal_executable,
  lacks_approvals, deploy_proposal, withdraw_proposal, announce_proposal, announce_approval,
  new_proposal, alloc_proposal_id, set_upgrade_proposal, clear_upgrade_proposal,
}

-- The caller is the admin or holds an unexpired upgrader role.
pub record MayUpgrade (caller : Address) (env : Env) (s : State) : Type 0 where
  pub admin : Address
  pub admin_stored : s.control.admin ≡ some admin
  pub upgrader : (caller == admin || holds_role env s.access caller Role.upgrader) ≡ true

either : (a b : Bool) → (not a && not b) ≡ false → (a || b) ≡ true
either a b h = ground arith

module _ {B : Type 0} {Q : State → Type 0} {env : Env} {s : State} where
  pub step_upgrader :
      (caller : Address) (t : List ℕ) (f : ⊤ → M B)
      → (MayUpgrade caller env s → Returns Q (f tt) env s)
      → Returns Q (require_upgrader caller t >>= f) env s
  unfolding require_upgrader
  step_upgrader caller t f h =
      search (write_nested, steps, checks, reading, step_refuse, may) depth 60
    where
      may :
          (admin : Address)
          → s.control.admin ≡ some admin
          → (not (caller == admin) && not (holds_role env s.access caller Role.upgrader)) ≡ false
          → Returns Q (f tt) env s
      may a p q = h (record { admin = a; admin_stored = p; upgrader = either _ _ q })

module _ (P : Governance → Type 0) (caller : Address) (env : Env) (s : State) where
  pub propose-Returns :
      (h : Hash) (delay : ℕ)
      → (MayUpgrade caller env s
          → is_some s.governance.proposal ≡ false
          → P (
              set_upgrade_proposal
                (new_proposal s.governance.proposal_count caller h delay env.timestamp)
                (alloc_proposal_id s.governance)))
      → Returns (λ s'. P s'.governance) (propose_multisig_upgrade caller h delay) env s
  unfolding propose_multisig_upgrade create_upgrade_proposal announce_proposal
  propose-Returns h delay k = search (steps, checks, writes, step_upgrader) depth 60

  pub approve-Returns :
      (id : ℕ)
      → (MayUpgrade caller env s
          → (p : UpgradeProposal) → s.governance.proposal ≡ some p
          → not (p.id == id) ≡ false
          → has_approved caller p.approvers ≡ false
          → P (set_upgrade_proposal (approved_by caller p) s.governance))
      → Returns (λ s'. P s'.governance) (approve_upgrade caller id) env s
  unfolding approve_upgrade record_approval announce_approval
  approve-Returns id k = search (steps, checks, writes, step_upgrader) depth 60

  pub cancel-Returns :
      (id : ℕ)
      → ((p : UpgradeProposal)
          → s.governance.proposal ≡ some p
          → not (p.id == id) ≡ false
          → P (clear_upgrade_proposal s.governance))
      → Returns (λ s'. P s'.governance) (cancel_upgrade_proposal caller id) env s
  unfolding cancel_upgrade_proposal withdraw_proposal
  cancel-Returns id k = search (steps, checks, writes, step_refuse) depth 60

  -- The governance entries after the execution of a proposal.
  pub deploy-deployed :
      (p : UpgradeProposal) (now : ℕ)
      → P (
          clear_staged_wasm
            (clear_upgrade_proposal (deployed caller p.wasm_hash false now s.governance)))
      → Returns (λ s'. P s'.governance) (deploy_proposal caller p now) env s
  unfolding deploy_proposal record_provenance announce_upgrade
  deploy-deployed p now k = search (writes, steps, write_wasm) depth 40

pub execute-Returns :
    (Q : State → Type 0) (caller : Address) (id : ℕ) (env : Env) (s : State)
    → (MayUpgrade caller env s
        → env.authorized caller ≡ true
        → (p : UpgradeProposal) → s.governance.proposal ≡ some p
        → not (p.id == id) ≡ false
        → ltb env.timestamp p.executable_at ≡ false
        → lacks_approvals s.governance p ≡ false
        → stages_other s.governance p.wasm_hash ≡ false
        → (s.governance.attestation_required && not (is_some s.governance.attestation)) ≡ false
        → Returns Q (deploy_proposal caller p env.timestamp) env s)
    → Returns Q (execute_upgrade caller id) env s
unfolding execute_upgrade require_proposal_executable require_staged_wasm_consistent
execute-Returns Q caller id env s k =
    search (steps, checks, write_nested, step_upgrader, write_pure) depth 80
