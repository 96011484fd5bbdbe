-- ===== src/Tests/Witnesses.antt =====
-- The theorems at concrete states.
use trustbridge_contract.Base.{
  ◌≡◌, ◌≢◌, ◌≤◌, ◌+◌, ◌*◌, ◌↔◌, refl, true, false, none, some, [], arith, length, bytes_eq,
  bytes_eq_iff,
}
use trustbridge_contract.Error.{ContractError, code, from_code}
use trustbridge_contract.Error.Codes.{from_code_iff}
use trustbridge_contract.Username.{
  is_valid_github_username, eq_ignore_ascii_case, canonicalize_username,
  calculate_verification_percentage, utf8_from, utf8_step, lead, to_ascii_lowercase,
}
use trustbridge_contract.Username.Valid.{IsUsername, is_valid-IsUsername}
use trustbridge_contract.Username.Canonical.{Fits, eq_ignore-canonicalize}
use trustbridge_contract.Username.Percentage.{percentage_rounds}
use trustbridge_contract.NameList.{mentions}
use trustbridge_contract.Types.{Address, PendingBatchRemove, Role}
use trustbridge_contract.Types.State.{Access, put_id}
use trustbridge_contract.Registry.{get_record, canon}
use trustbridge_contract.Registry
use trustbridge_contract.Registry.Chunks.{joined}
use trustbridge_contract.Registry.Verified.{count_verified}
use trustbridge_contract.Registry.Coherent.{Coherent}
use trustbridge_contract.Registry.Repair.{
  Listed, compact-Coherent, repair_index-Coherent, repair_index-no_drift,
}
use trustbridge_contract.Access
use trustbridge_contract.Access.{
  charge_verify_rate, verify_units_spent, get_verify_limit, get_allowlist, max_verifiers, among,
}
use trustbridge_contract.Access.Rate.{charge-within_limit}
use trustbridge_contract.Access.RoleIndex.{
  RolesListed, set_role-RolesListed, remove_role-RolesListed,
}
use trustbridge_contract.Contract.Rules.{OnOk}
use trustbridge_contract.Contract.Remove.{execute_batch_remove}
use trustbridge_contract.Contract.Remove.DualControl.{MayExecute, execute-MayExecute}
use trustbridge_contract.Contract.Register.{register}
use trustbridge_contract.Contract.Register.Guarded.{Guarded, register-Guarded}
use trustbridge_contract.Contract.Rename.{rename}
use trustbridge_contract.Contract.Rename.Effect.{rename-case_only_loses}
use trustbridge_contract.Contract.Rotation.{execute_address_rotation}
use trustbridge_contract.Contract.Rotation.Effect.{Rotated, execute_address_rotation-Rotated}
use trustbridge_contract.Contract.Challenge.{complete_challenge}
use trustbridge_contract.Contract.Challenge.Effect.{Resolved, complete_challenge-Resolved}
use trustbridge_contract.Contract.Roles.{add_verifier, remove_verifier}
use trustbridge_contract.Contract.Roles.Allowlist.{Gone, add_verifier-Bounded, remove_verifier-Gone}
use trustbridge_contract.Contract.Run.{Call, run}
use trustbridge_contract.Contract.Run.Invariant.{run-Coherent}
use trustbridge_contract.Contract.Run.Paused.{run-paused}
use trustbridge_contract.Tests.{
  alice, capital_alice, admin, second_admin, holder, at_1000, start, with_alice, paused,
  with_verifier, removal_pending, rotation_pending, challenge_pending, alice_registry,
  empty-Coherent, two_admins,
}

alice-canon : canon alice ≡ alice
unfolding canonicalize_username utf8_from utf8_step lead to_ascii_lowercase
alice-canon = refl

pub alice-Coherent : Coherent alice_registry
unfolding mentions joined count_verified canonicalize_username utf8_from utf8_step lead
    to_ascii_lowercase bytes_eq
alice-Coherent = record {
  indexed = λ u. ground (arith, bytes_eq_iff u alice, bytes_eq_iff alice u);
  distinct = (refl, tt);
  canonical = (refl, tt);
  chunked = refl;
  counted = refl;
  verified_counted = refl;
}

run-Coherent_example : Coherent (run (Call.register alice holder []) at_1000 start).registry
run-Coherent_example =
    run-Coherent (Call.register alice holder []) at_1000 start empty-Coherent (omega arith) tt

run-paused_example : run (Call.remove holder alice) at_1000 paused ≡ paused
run-paused_example = run-paused (Call.remove holder alice) at_1000 paused tt refl

execute-MayExecute_example :
    OnOk
      (λ s'. (p : PendingBatchRemove) × MayExecute at_1000 removal_pending second_admin p)
      (execute_batch_remove second_admin at_1000 removal_pending)
execute-MayExecute_example = execute-MayExecute second_admin at_1000 removal_pending

execute_address_rotation-Rotated_example :
    OnOk
      (Rotated alice at_1000 rotation_pending)
      (execute_address_rotation alice at_1000 rotation_pending)
execute_address_rotation-Rotated_example =
    execute_address_rotation-Rotated alice at_1000 rotation_pending

complete_challenge-Resolved_example :
    OnOk
      (λ s'. Resolved admin alice at_1000 challenge_pending × (get_record s'.registry alice ≡ none))
      (complete_challenge admin alice at_1000 challenge_pending)
complete_challenge-Resolved_example =
    complete_challenge-Resolved admin alice at_1000 challenge_pending

one_key : canon alice ≡ canon capital_alice
unfolding canonicalize_username utf8_from utf8_step lead to_ascii_lowercase
one_key = refl

rename-case_only_loses_example :
    OnOk
      (λ s'. (get_record s'.registry capital_alice ≡ none) × (s'.registry.count ≡ 1))
      (rename holder alice capital_alice at_1000 with_alice)
rename-case_only_loses_example =
    rename-case_only_loses holder alice capital_alice at_1000 with_alice one_key

alice-Listed : Listed (record alice_registry { count = 5; verified_count = 3 })
alice-Listed =
    let h = alice-Coherent in
    record {
      indexed = h.indexed;
      distinct = h.distinct;
      canonical = h.canonical;
      chunked = h.chunked;
    }

repair_index-Coherent_example :
    Coherent
      (Registry.repair_index true (record alice_registry { count = 5; verified_count = 3 })).1
repair_index-Coherent_example = repair_index-Coherent _ alice-Listed (omega arith)

repair_index-no_drift_example :
    ((Registry.repair_index true alice_registry).0.drifted ≡ false)
    × ((Registry.repair_index true alice_registry).1 ≡ alice_registry)
repair_index-no_drift_example =
    repair_index-no_drift true alice_registry alice-Coherent (omega arith)

is_valid-IsUsername_example : (is_valid_github_username alice ≡ true) ↔ IsUsername alice
is_valid-IsUsername_example = is_valid-IsUsername alice

alice-Fits : Fits alice
unfolding utf8_from utf8_step lead
alice-Fits = record { nonempty = omega arith; bounded = omega arith; text = refl }

capital-Fits : Fits capital_alice
unfolding utf8_from utf8_step lead
capital-Fits = record { nonempty = omega arith; bounded = omega arith; text = refl }

eq_ignore-canonicalize_example :
    eq_ignore_ascii_case alice capital_alice
    ≡ bytes_eq (canonicalize_username alice) (canonicalize_username capital_alice)
eq_ignore-canonicalize_example = eq_ignore-canonicalize alice capital_alice alice-Fits capital-Fits

percentage_rounds_example :
    (calculate_verification_percentage 2 3 ≤ 100)
    × (2 * 3 * calculate_verification_percentage 2 3 ≤ 200 * 2 + 3)
    × (200 * 2 ≤ 2 * 3 * calculate_verification_percentage 2 3 + 3)
percentage_rounds_example = percentage_rounds 2 3 (omega arith) (omega arith)

from_code_iff_example :
    (from_code 49 ≡ some ContractError.rotation_pending)
    ↔ (code ContractError.rotation_pending ≡ 49)
from_code_iff_example = from_code_iff 49 ContractError.rotation_pending

-- The verifier 11 spends three units of the default limit.
abbrev charged : Access
charged = record two_admins { verify_rate = put_id 11 (some (5, 3)) two_admins.verify_rate }

grants : charge_verify_rate 5 11 3 two_admins ≡ some charged
unfolding charge_verify_rate
grants = refl

charge-within_limit_example :
    (verify_units_spent 5 11 charged ≡ verify_units_spent 5 11 two_admins + 3)
    × (verify_units_spent 5 11 charged ≤ 20)
    × ((b : Address) → b ≢ 11 → verify_units_spent 5 b charged ≡ verify_units_spent 5 b two_admins)
unfolding verify_units_spent
charge-within_limit_example =
    charge-within_limit 5 11 3 two_admins charged (ground arith) (omega arith) (omega arith) grants

add_verifier-Bounded_example :
    OnOk
      (λ s'. length (get_allowlist s'.access) ≤ max_verifiers)
      (add_verifier 11 2000 at_1000 start)
add_verifier-Bounded_example = add_verifier-Bounded 11 2000 at_1000 start (omega arith)

remove_verifier-Gone_example :
    OnOk (λ s'. Gone second_admin s'.access) (remove_verifier second_admin at_1000 with_verifier)
remove_verifier-Gone_example = remove_verifier-Gone second_admin at_1000 with_verifier

admins-RolesListed : RolesListed two_admins
unfolding RolesListed among
admins-RolesListed a = ground arith

set_role-RolesListed_example :
    RolesListed (Access.set_role_with_expiry 11 Role.verifier (some 2000) two_admins)
set_role-RolesListed_example =
    set_role-RolesListed 11 Role.verifier (some 2000) two_admins admins-RolesListed

remove_role-RolesListed_example :
    RolesListed (Access.remove_role second_admin two_admins)
    × ((Access.remove_role second_admin two_admins).roles second_admin ≡ none)
remove_role-RolesListed_example = remove_role-RolesListed second_admin two_admins admins-RolesListed

compact-Coherent_example : Coherent (Registry.compact_chunked_index alice_registry)
compact-Coherent_example = compact-Coherent alice_registry alice-Coherent

register-Guarded_example :
    OnOk (λ s'. Guarded alice holder at_1000 start) (register alice holder [] at_1000 start)
register-Guarded_example = register-Guarded alice holder [] at_1000 start
