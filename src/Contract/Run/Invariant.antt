-- ===== src/Contract/Run/Invariant.antt =====
-- The calls of src/lib.rs and the coherence of the registry.
use trustbridge_contract.Base.{◌≡◌, ◌≤◌, ◌<◌, sym, Bool, ⊤, u32_max, arith}
use mathlib.Core.Path.{subst}
use trustbridge_contract.Types.State.{State, Registry}
use trustbridge_contract.Registry.{canon}
use trustbridge_contract.Registry
use trustbridge_contract.Registry.Coherent.{Coherent}
use trustbridge_contract.Registry.Repair.{compact-Coherent, repair_index-no_drift}
use trustbridge_contract.Contract.Monad.{Env, invoke}
use trustbridge_contract.Contract.Rules.{Returns, steps, after_invoke}
use trustbridge_contract.Contract.Writes.{writes}
use trustbridge_contract.Contract.Guards.Same.{checks}
use trustbridge_contract.Contract.Maintenance
use trustbridge_contract.Contract.Run.{Call, run}
use trustbridge_contract.Contract.Run.Frame.{invoke-Keeps}
use trustbridge_contract.Contract.Run.Administered.{administration-Keeps}
use trustbridge_contract.Contract.Run.Governed.{governing-Keeps}
use trustbridge_contract.Contract.Migration.Effect.{migrated-Coherent}
use trustbridge_contract.Contract.Oracle.Effect.{verify_with_oracle_proof-Coherent}
use trustbridge_contract.Contract.Register.Effect.{register-Coherent, register_sponsored-Coherent}
use trustbridge_contract.Contract.Remove.Effect.{remove-Coherent}
use trustbridge_contract.Contract.Remove.Batch.{batch_remove-Coherent}
use trustbridge_contract.Contract.Remove.DualControl.{execute_batch_remove-Coherent}
use trustbridge_contract.Contract.Verify.Effect.{
  verify-Coherent, revoke_verification-Coherent, set_bot_status-Coherent,
}
use trustbridge_contract.Contract.Verify.Batch.{batch_verify-Coherent}
use trustbridge_contract.Contract.Rename.Effect.{rename-Coherent}
use trustbridge_contract.Contract.Rotation.Effect.{execute_address_rotation-Coherent}
use trustbridge_contract.Contract.Challenge.Effect.{complete_challenge-Coherent}

compact-Returns :
    (P : Registry → Type 0) (env : Env) (s : State)
    → P (Registry.compact_chunked_index s.registry)
    → Returns (λ s'. P s'.registry) Maintenance.compact_index env s
unfolding Maintenance.compact_index
compact-Returns P env s h = search (steps, checks, writes) depth 40

repair-Returns :
    (P : Registry → Type 0) (b : Bool) (env : Env) (s : State)
    → P (Registry.repair_index b s.registry).1
    → Returns (λ s'. P s'.registry) (Maintenance.repair_index b) env s
unfolding Maintenance.repair_index
repair-Returns P b env s h = search (steps, checks, writes) depth 40

compacted-Coherent :
    (env : Env) (s : State)
    → Coherent s.registry
    → Coherent (invoke Maintenance.compact_index env s).registry
unfolding invoke
compacted-Coherent env s h =
    after_invoke (λ s'. Coherent s'.registry) Maintenance.compact_index env s h
      (compact-Returns Coherent env s (compact-Coherent s.registry h))

repaired-Coherent :
    (b : Bool) (env : Env) (s : State)
    → Coherent s.registry
    → s.registry.count ≤ u32_max
    → Coherent (invoke (Maintenance.repair_index b) env s).registry
unfolding invoke
repaired-Coherent b env s h fits =
    after_invoke (λ s'. Coherent s'.registry) (Maintenance.repair_index b) env s h
      (repair-Returns Coherent b env s (rw ((repair_index-no_drift b s.registry h fits).1) h))

-- The calls for which the storage key of the new name is that name.
abbrev pub RenamesToKey : Call → Type 0
RenamesToKey (Call.rename caller old new) = canon new ≡ new
RenamesToKey _ = ⊤

-- Every call that `Call` lists keeps the registry coherent, whether it returns, fails or traps:
-- the flat index lists exactly the names that have a record, once each and in canonical form, the
-- chunks joined are the flat index, and the two counters are the number of names and of verified
-- names. The count is below the largest u32, and for a renaming the new name is its own storage
-- key.
pub run-Coherent :
    (c : Call) (env : Env) (s : State)
    → Coherent s.registry
    → s.registry.count < u32_max
    → RenamesToKey c
    → Coherent (run c env s).registry
unfolding run
run-Coherent (Call.register u a fs) env s h room k = register-Coherent u a fs env s h room
run-Coherent (Call.register_sponsored u a sp) env s h room k =
    register_sponsored-Coherent u a sp env s h room
run-Coherent (Call.remove a u) env s h room k = remove-Coherent a u env s h
run-Coherent (Call.batch_remove a us) env s h room k =
    batch_remove-Coherent a us env s h (omega arith)
run-Coherent (Call.execute_batch_remove a) env s h room k =
    execute_batch_remove-Coherent a env s h (omega arith)
run-Coherent (Call.verify a u) env s h room k = verify-Coherent a u env s h (omega arith)
run-Coherent (Call.batch_verify a us) env s h room k =
    batch_verify-Coherent a us env s h (omega arith)
run-Coherent (Call.revoke_verification a u n) env s h room k =
    revoke_verification-Coherent a u n env s h
run-Coherent (Call.set_bot_status a u b) env s h room k = set_bot_status-Coherent a u b env s h
run-Coherent (Call.rename a u v) env s h room k = rename-Coherent a u v env s h room k
run-Coherent (Call.execute_address_rotation u) env s h room k =
    execute_address_rotation-Coherent u env s h
run-Coherent (Call.complete_challenge a u) env s h room k = complete_challenge-Coherent a u env s h
run-Coherent Call.compact_index env s h room k = compacted-Coherent env s h
run-Coherent (Call.repair_index b) env s h room k = repaired-Coherent b env s h (omega arith)
run-Coherent (Call.verify_with_oracle_proof u p) env s h room k =
    verify_with_oracle_proof-Coherent u p env s h (omega arith)
run-Coherent (Call.migrate v) env s h room k = migrated-Coherent v env s h
run-Coherent (Call.govern g) env s h room k =
    subst Coherent (sym (invoke-Keeps _ env s (governing-Keeps g))) h
run-Coherent (Call.administer a) env s h room k =
    subst Coherent (sym (invoke-Keeps _ env s (administration-Keeps a))) h
