-- ===== src/Contract/Remove.antt =====
-- Removal (src/lib.rs): `remove`, the direct and the dual-control `batch_remove`, and the batch
-- summary of src/batch.rs.
pub mod Effect
pub mod Completes
pub mod Batch
pub mod DualControl
use trustbridge_contract.Base.{
  ℕ, ◌+◌, ◌-◌, Bool, true, false, not, ◌&&◌, ◌||◌, Option, none, some, List, [], ◌∷◌, ⊤, length,
  ltb, leb, ◌==◌, if◌then◌else◌, saturating_add_u32, saturating_add_u64,
}
use trustbridge_contract.Error.{ContractError}
use trustbridge_contract.Username.{Username, calculate_verification_percentage}
use trustbridge_contract.Types.{
  Address, ContributorRecord, AuditEventType, PendingBatchRemove, Role,
}
use trustbridge_contract.Types.Event.{Event}
use trustbridge_contract.Types.State.{State, Names}
use trustbridge_contract.Registry.{
  get_record, erase_record, remove_from_index, set_count, set_verified_count,
}
use trustbridge_contract.Names.{clear_pending_reverify, remove_challenge}
use trustbridge_contract.Contract.Monad.{
  Env, M, pure, fail, ask, gets, ok_or, ◌>>=◌, ◌>>◌, reject_if, require_auth, on_registry, on_names,
}
use trustbridge_contract.Contract.Guards.{
  require_initialized, require_not_paused, get_admin, event_domain, publish, push_audit_entry,
  log_entry, with_username, with_address, refuse_if, text, require_role_not_expired, holds_role,
}

-- `BatchSummary`, and `BatchSummary::new`.
pub record BatchSummary : Type 0 where
  pub total : ℕ
  pub successful : ℕ
  pub failed : ℕ
  pub success_rate : ℕ

unfoldable pub new_summary : ℕ → ℕ → BatchSummary
new_summary total successful = record {
  total = total;
  successful = successful;
  failed = total - successful;
  success_rate = calculate_verification_percentage successful total;
}

-- `MAX_WRITE_BATCH`, and `is_valid_batch_size` of `BatchConfig::for_writes`.
abbrev pub max_write_batch : ℕ
max_write_batch = 25

abbrev pub is_valid_batch_size : ℕ → Bool
is_valid_batch_size size = ltb 0 size && leb size max_write_batch

-- `remove_record`: the record, and the re-verify flag that goes with it.
unfoldable pub remove_record : Username → M ⊤
remove_record u = do on_registry (erase_record u); on_names (clear_pending_reverify u)

unfoldable pub removed : Username → Address → Address → ℕ → M ⊤
removed u stellar_address actor timestamp = do
  d ← event_domain
  publish (Event.removed u stellar_address timestamp d)
  push_audit_entry (
      with_address stellar_address
        (with_username u (log_entry AuditEventType.user_removed timestamp actor)))

-- The counters after one removal.
unfoldable pub count_down : ContributorRecord → M ⊤
count_down c = do
  on_registry (λ r. set_count (r.count - 1) r)
  on_registry (λ r. if c.verified then set_verified_count (r.verified_count - 1) r else r)

unfoldable pub take_out : Address → Username → ContributorRecord → ℕ → M ⊤
unfolding remove_record count_down removed
take_out caller u c timestamp = do
  remove_record u
  on_registry (remove_from_index u)
  count_down c
  on_names (remove_challenge u)
  removed u c.stellar_address caller timestamp

unfoldable pub remove : Address → Username → M ⊤
remove caller u = do
  require_initialized
  require_not_paused
  env ← ask (λ e. e)
  s ← gets (λ s. s)
  c ← ok_or (get_record s.registry u) ContractError.not_registered
  admin ← get_admin
  require_auth caller
  refuse_if (not (caller == admin) && not (caller == c.stellar_address)) caller (text "remove")
  take_out caller u c env.timestamp

-- The tallies of `apply_batch_remove`.
pub record Tally : Type 0 where
  pub successful : ℕ
  pub removed : ℕ
  pub unverified : ℕ

abbrev pub zero_tally : Tally
zero_tally = record { successful = 0; removed = 0; unverified = 0 }

unfoldable pub tally_up : ContributorRecord → Tally → Tally
tally_up c t = record {
  successful = saturating_add_u32 t.successful 1;
  removed = saturating_add_u32 t.removed 1;
  unverified = if c.verified then saturating_add_u32 t.unverified 1 else t.unverified;
}

-- One round of the loop: a name without a record is skipped.
unfoldable pub remove_one : Address → Username → Option ContributorRecord → Tally → ℕ → M Tally
unfolding remove_record removed
remove_one caller u none t timestamp = pure t
remove_one caller u (some c) t timestamp = do
  remove_record u
  on_registry (remove_from_index u)
  removed u c.stellar_address caller timestamp
  pure (tally_up c t)

unfoldable pub remove_each : Address → List Username → Tally → M Tally
remove_each caller [] t = pure t
remove_each caller (u ∷ us) t = do
  env ← ask (λ e. e)
  s ← gets (λ s. s)
  t' ← remove_one caller u (get_record s.registry u) t env.timestamp
  remove_each caller us t'

-- The deferred counters.
unfoldable pub settle_counts : Tally → M ⊤
settle_counts t = do
  on_registry (λ r. if ltb 0 t.removed then set_count (r.count - t.removed) r else r)
  on_registry (λ r.
      if ltb 0 t.unverified then set_verified_count (r.verified_count - t.unverified) r else r)

unfoldable pub apply_batch_remove : Address → List Username → M BatchSummary
apply_batch_remove caller usernames = do
  t ← remove_each caller usernames zero_tally
  settle_counts t
  pure (new_summary (length usernames) t.successful)

-- `requires_batch_remove_dual_control`.
abbrev pub requires_dual_control : Names → ℕ → Bool
requires_dual_control n size = ltb 0 n.batch_remove_threshold && ltb n.batch_remove_threshold size

unfoldable pub batch_remove : Address → List Username → M BatchSummary
batch_remove caller usernames = do
  require_initialized
  require_not_paused
  reject_if (not (is_valid_batch_size (length usernames))) ContractError.invalid_batch_size
  require_auth caller
  admin ← get_admin
  refuse_if (not (caller == admin)) caller (text "batch_remove")
  s ← gets (λ s. s)
  reject_if (requires_dual_control s.names (length usernames)) ContractError.dual_control_required
  apply_batch_remove caller usernames

-- `BATCH_REMOVE_PROPOSAL_TTL_SECS`, and `is_batch_remove_proposal_expired`.
abbrev pub proposal_ttl_secs : ℕ
proposal_ttl_secs = 86400

abbrev pub is_proposal_expired : ℕ → PendingBatchRemove → Bool
is_proposal_expired now p = leb (saturating_add_u64 p.proposed_at proposal_ttl_secs) now

abbrev pub is_live : ℕ → Option PendingBatchRemove → Bool
is_live now none = false
is_live now (some p) = not (is_proposal_expired now p)

unfoldable pub propose_batch_remove : Address → List Username → M ⊤
propose_batch_remove caller usernames = do
  require_initialized
  require_not_paused
  reject_if (not (is_valid_batch_size (length usernames))) ContractError.invalid_batch_size
  require_auth caller
  admin ← get_admin
  refuse_if (not (caller == admin)) caller (text "propose_batch_remove")
  env ← ask (λ e. e)
  s ← gets (λ s. s)
  reject_if (is_live env.timestamp s.names.pending_batch_remove)
      ContractError.batch_remove_proposal_pending
  on_names (λ n. record n {
    pending_batch_remove =
        some (record { usernames = usernames; proposed_by = caller; proposed_at = env.timestamp });
  })
  d ← event_domain
  publish (Event.batch_remove_proposed caller (length usernames) env.timestamp d)

abbrev pub clear_pending_batch_remove : Names → Names
clear_pending_batch_remove n = record n { pending_batch_remove = none }

-- The execution of a live proposal by a second admin-equivalent key.
unfoldable pub carry_out : Address → PendingBatchRemove → ℕ → M BatchSummary
carry_out caller p timestamp = do
  on_names clear_pending_batch_remove
  summary ← apply_batch_remove caller p.usernames
  d ← event_domain
  publish (
      Event.batch_remove_executed caller p.proposed_by (length p.usernames) summary.successful
        timestamp d)
  pure summary

-- An expired proposal is cleared, and reported as missing.
unfoldable pub drop_if_expired : Bool → M ⊤
drop_if_expired true =
    on_names clear_pending_batch_remove >> fail ContractError.no_pending_batch_remove
drop_if_expired false = pure tt

unfoldable pub execute_batch_remove : Address → M BatchSummary
execute_batch_remove caller = do
  require_initialized
  require_not_paused
  require_auth caller
  admin ← get_admin
  if caller == admin then pure tt else require_role_not_expired caller
  env ← ask (λ e. e)
  s ← gets (λ s. s)
  p ← ok_or s.names.pending_batch_remove ContractError.no_pending_batch_remove
  drop_if_expired (is_proposal_expired env.timestamp p)
  refuse_if
      (not (caller == admin || holds_role env s.access caller Role.admin)
        || caller == p.proposed_by)
      caller (text "execute_batch_remove")
  carry_out caller p env.timestamp

unfoldable pub cancel_batch_remove : Address → M ⊤
cancel_batch_remove caller = do
  require_initialized
  require_auth caller
  admin ← get_admin
  refuse_if (not (caller == admin)) caller (text "cancel_batch_remove")
  env ← ask (λ e. e)
  s ← gets (λ s. s)
  p ← ok_or s.names.pending_batch_remove ContractError.no_pending_batch_remove
  on_names clear_pending_batch_remove
  d ← event_domain
  publish (Event.batch_remove_cancelled caller p.proposed_by env.timestamp d)

unfoldable pub set_batch_remove_threshold : ℕ → M ⊤
set_batch_remove_threshold threshold = do
  require_initialized
  admin ← get_admin
  require_auth admin
  on_names (λ n. record n { batch_remove_threshold = threshold })
