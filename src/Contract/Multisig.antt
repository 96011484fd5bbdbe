-- ===== src/Contract/Multisig.antt =====
-- The upgrade by several signers (src/multisig_upgrade.rs) and its entry points
-- (src/lib.rs:1673).
pub mod Machine
pub mod Effect
pub mod Signers
pub mod Executed
pub mod Answers
use trustbridge_contract.Base.{
  ℕ, Bool, true, false, not, ◌||◌, Option, none, some, List, [], ◌∷◌, ◌++◌, ⊤, length, ltb, ◌==◌,
  if◌then◌else◌, is_some, max, saturating_add_u32, saturating_add_u64,
}
use trustbridge_contract.Error.{ContractError}
use trustbridge_contract.Types.{Address, Hash, AuditEventType, UpgradeProposal}
use trustbridge_contract.Types.Event.{Event}
use trustbridge_contract.Types.State.{State, Governance}
use trustbridge_contract.Contract.Monad.{
  Env, M, pure, ask, gets, ok_or, ◌>>=◌, ◌>>◌, reject_if, require_auth, on_governance,
}
use trustbridge_contract.Contract.Guards.{
  require_initialized, require_not_paused, get_admin, publish, push_audit_entry, log_entry,
  with_details, refuse_if, text, event_domain, version_or_default,
}
use trustbridge_contract.Contract.Upgrade.{
  record_provenance, update_current_contract_wasm, set_last_upgrade, announce_upgrade,
}
use trustbridge_contract.Contract.Staging.{
  require_upgrader, require_staged_wasm_consistent, clear_staged_wasm,
}

-- `MAX_UPGRADE_SIGNERS`.
abbrev pub max_upgrade_signers : ℕ
max_upgrade_signers = 20

unfoldable pub get_upgrade_threshold : Governance → ℕ
get_upgrade_threshold g = elim g.upgrade_threshold [ none ↦ 1 | some n ↦ n ]

abbrev pub with_upgrade_threshold : ℕ → Governance → Governance
with_upgrade_threshold n g = record g { upgrade_threshold = some (max n 1) }

unfoldable pub set_upgrade_threshold : Address → ℕ → M ⊤
set_upgrade_threshold caller threshold = do
  require_initialized
  require_auth caller
  admin ← get_admin
  refuse_if (not (caller == admin)) caller (text "set_upgrade_threshold")
  on_governance (with_upgrade_threshold threshold)
  env ← ask (λ e. e)
  push_audit_entry (
      with_details (text "set_upgrade_threshold")
        (log_entry AuditEventType.admin_action env.timestamp caller))

abbrev pub set_upgrade_proposal : UpgradeProposal → Governance → Governance
set_upgrade_proposal p g = record g { proposal = some p }

abbrev pub clear_upgrade_proposal : Governance → Governance
clear_upgrade_proposal g = record g { proposal = none }

-- `alloc_proposal_id`: the identifier is the counter before the step.
abbrev pub alloc_proposal_id : Governance → Governance
alloc_proposal_id g = record g { proposal_count = saturating_add_u32 g.proposal_count 1 }

abbrev pub new_proposal : ℕ → Address → Hash → ℕ → ℕ → UpgradeProposal
new_proposal id proposer wasm_hash delay_secs now = record {
  id = id;
  wasm_hash = wasm_hash;
  proposed_by = proposer;
  proposed_at = now;
  executable_at = saturating_add_u64 now delay_secs;
  approvers = proposer ∷ [];
}

unfoldable pub create_upgrade_proposal : Address → Hash → ℕ → M UpgradeProposal
create_upgrade_proposal proposer wasm_hash delay_secs = do
  env ← ask (λ e. e)
  s ← gets (λ s. s)
  reject_if (is_some s.governance.proposal) ContractError.upgrade_proposal_already_pending
  on_governance alloc_proposal_id
  let p = new_proposal s.governance.proposal_count proposer wasm_hash delay_secs env.timestamp
  on_governance (set_upgrade_proposal p)
  pure p

-- The loop over the approvers.
unfoldable pub has_approved : Address → List Address → Bool
has_approved a [] = false
has_approved a (b ∷ bs) = b == a || has_approved a bs

-- An approval beyond the last slot is not recorded.
abbrev pub approved_by : Address → UpgradeProposal → UpgradeProposal
approved_by a p = record p {
  approvers =
      if ltb (length p.approvers) max_upgrade_signers then p.approvers ++ a ∷ [] else p.approvers;
}

unfoldable pub record_approval : ℕ → Address → M UpgradeProposal
record_approval proposal_id approver = do
  s ← gets (λ s. s)
  p ← ok_or s.governance.proposal ContractError.no_upgrade_proposal_pending
  reject_if (not (p.id == proposal_id)) ContractError.no_upgrade_proposal_pending
  reject_if (has_approved approver p.approvers) ContractError.upgrade_proposal_already_approved
  on_governance (set_upgrade_proposal (approved_by approver p))
  pure (approved_by approver p)

-- The negation of `has_enough_approvals`.
unfoldable pub lacks_approvals : Governance → UpgradeProposal → Bool
unfolding get_upgrade_threshold
lacks_approvals g p = ltb (length p.approvers) (get_upgrade_threshold g)

unfoldable pub require_proposal_executable : ℕ → M UpgradeProposal
require_proposal_executable proposal_id = do
  env ← ask (λ e. e)
  s ← gets (λ s. s)
  p ← ok_or s.governance.proposal ContractError.no_upgrade_proposal_pending
  reject_if (not (p.id == proposal_id)) ContractError.no_upgrade_proposal_pending
  reject_if (ltb env.timestamp p.executable_at) ContractError.upgrade_proposal_delay_active
  reject_if (lacks_approvals s.governance p) ContractError.upgrade_proposal_insufficient_approvals
  pure p

unfoldable pub announce_proposal : Address → Hash → UpgradeProposal → M ⊤
announce_proposal caller wasm_hash p = do
  publish (Event.upgrade_proposed p.id caller wasm_hash p.executable_at p.proposed_at)
  push_audit_entry (
      with_details (text "propose_multisig_upgrade")
        (log_entry AuditEventType.admin_action p.proposed_at caller))

unfoldable pub propose_multisig_upgrade : Address → Hash → ℕ → M ⊤
unfolding announce_proposal
propose_multisig_upgrade caller wasm_hash delay_secs = do
  require_initialized
  require_auth caller
  require_upgrader caller (text "propose_multisig_upgrade")
  p ← create_upgrade_proposal caller wasm_hash delay_secs
  announce_proposal caller wasm_hash p

unfoldable pub announce_approval : Address → ℕ → UpgradeProposal → M ⊤
announce_approval caller proposal_id p = do
  env ← ask (λ e. e)
  publish (Event.upgrade_approved proposal_id caller (length p.approvers) env.timestamp)
  push_audit_entry (
      with_details (text "approve_upgrade")
        (log_entry AuditEventType.admin_action env.timestamp caller))

unfoldable pub approve_upgrade : Address → ℕ → M ⊤
unfolding announce_approval
approve_upgrade caller proposal_id = do
  require_initialized
  require_auth caller
  require_upgrader caller (text "approve_upgrade")
  p ← record_approval proposal_id caller
  announce_approval caller proposal_id p

-- The writes of an execution.
unfoldable pub deploy_proposal : Address → UpgradeProposal → ℕ → M ⊤
unfolding record_provenance announce_upgrade
deploy_proposal caller p now = do
  record_provenance caller p.wasm_hash false now
  on_governance clear_upgrade_proposal
  on_governance clear_staged_wasm
  update_current_contract_wasm p.wasm_hash
  on_governance (set_last_upgrade now)
  publish (Event.upgrade_proposal_executed p.id caller p.wasm_hash (length p.approvers) now)
  announce_upgrade caller p.wasm_hash now

unfoldable pub execute_upgrade : Address → ℕ → M ⊤
execute_upgrade caller proposal_id = do
  require_initialized
  require_not_paused
  require_auth caller
  require_upgrader caller (text "execute_upgrade")
  p ← require_proposal_executable proposal_id
  require_staged_wasm_consistent p.wasm_hash
  env ← ask (λ e. e)
  deploy_proposal caller p env.timestamp

unfoldable pub withdraw_proposal : Address → UpgradeProposal → ℕ → M ⊤
withdraw_proposal caller p now = do
  on_governance clear_upgrade_proposal
  publish (Event.upgrade_proposal_cancelled p.id caller p.wasm_hash now)
  push_audit_entry (
      with_details (text "cancel_upgrade_proposal")
        (log_entry AuditEventType.admin_action now caller))

unfoldable pub cancel_upgrade_proposal : Address → ℕ → M ⊤
unfolding withdraw_proposal
cancel_upgrade_proposal caller proposal_id = do
  require_initialized
  require_auth caller
  admin ← get_admin
  refuse_if (not (caller == admin)) caller (text "cancel_upgrade_proposal")
  env ← ask (λ e. e)
  s ← gets (λ s. s)
  p ← ok_or s.governance.proposal ContractError.no_upgrade_proposal_pending
  reject_if (not (p.id == proposal_id)) ContractError.no_upgrade_proposal_pending
  withdraw_proposal caller p env.timestamp
