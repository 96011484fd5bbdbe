-- ===== src/Contract/Multisig/Answers.antt =====
-- What the multisig flow answers to an admin: when an execution returns, and how an approval
-- ends.
use trustbridge_contract.Base.{ℕ, ◌≡◌, ◌≤◌, true, false, none, some, arith, length}
use trustbridge_contract.Types.{Address, UpgradeProposal, AuditEventType}
use trustbridge_contract.Types.State.{State}
use trustbridge_contract.Contract.Monad.{Env, ok, actions}
use trustbridge_contract.Contract.Guards.{
  require_initialized, require_not_paused, get_admin, refuse_if, publish, event_domain,
  push_audit_entry,
}
use trustbridge_contract.Contract.Guards.Serves.{Serves}
use trustbridge_contract.Contract.Upgrade.{
  record_provenance, announce_upgrade, update_current_contract_wasm,
}
use trustbridge_contract.Contract.Staging.{
  require_upgrader, require_staged_wasm_consistent, stages_other,
}
use trustbridge_contract.Contract.Multisig.{
  execute_upgrade, deploy_proposal, require_proposal_executable, lacks_approvals,
  get_upgrade_threshold,
}

module _ (admin : Address) (env : Env) (s : State) where
  deploy_returns :
      (p : UpgradeProposal) (now : ℕ)
      → Serves AuditEventType.contract_upgraded env s
      → env.uploaded p.wasm_hash ≡ true
      → (deploy_proposal admin p now env s).0 ≡ ok tt
  unfolding deploy_proposal record_provenance announce_upgrade update_current_contract_wasm actions
      publish event_domain push_audit_entry
  deploy_returns p now serves up = ground (arith, serves.audit_room)

  has_enough :
      (p : UpgradeProposal)
      → get_upgrade_threshold s.governance ≤ length p.approvers
      → lacks_approvals s.governance p ≡ false
  unfolding lacks_approvals
  has_enough p h = ground arith

  -- The admin, having authorized it, executes a pending proposal that is due and has as many
  -- signers as the threshold: the call returns, whether or not the admin is among the signers,
  -- whatever the cooldown and the time of the last upgrade, where the contract is initialized on
  -- this network, not paused and has room in its audit counters, the code is uploaded, nothing is
  -- staged and no attestation is required.
  pub execute_upgrade-returns :
      (p : UpgradeProposal)
      → Serves AuditEventType.contract_upgraded env s
      → s.control.admin ≡ some admin
      → env.authorized admin ≡ true
      → env.uploaded p.wasm_hash ≡ true
      → s.governance.proposal ≡ some p
      → p.executable_at ≤ env.timestamp
      → get_upgrade_threshold s.governance ≤ length p.approvers
      → s.governance.staged ≡ none
      → s.governance.attestation_required ≡ false
      → (execute_upgrade admin p.id env s).0 ≡ ok tt
  unfolding execute_upgrade actions require_initialized require_not_paused get_admin refuse_if
      require_upgrader require_proposal_executable require_staged_wasm_consistent stages_other
  execute_upgrade-returns p serves is_admin auth up pending due enough unstaged free = ground (
    arith,
    serves.initialized,
    serves.on_network,
    serves.not_paused,
    deploy_returns p env.timestamp serves up,
    has_enough p enough,
  )
