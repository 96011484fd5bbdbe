-- ===== src/Tests/Upgrades.antt =====
-- Upgrades, migrations and oracle proofs at concrete states.
use trustbridge_contract.Base.{
  ℕ, ◌≡◌, ◌≤◌, ◌<◌, refl, Bool, true, false, Option, none, some, List, [], ◌∷◌, ◌++◌, arith,
  is_some, leb, Lacks,
}
use trustbridge_contract.Types.{
  ContributorRecord, Role, UpgradeProposal, AuditEventType, Address, VersionTuple,
}
use trustbridge_contract.Types.State.{State, put_id, put_name}
use trustbridge_contract.Registry.{get_record}
use trustbridge_contract.Oracle.{OracleProof, colon}
use trustbridge_contract.Oracle.Message.{ownership_message-injective}
use trustbridge_contract.Merkle.{zeros}
use trustbridge_contract.Version.{is_compatible_with, from_tuple}
use trustbridge_contract.Version.Order.{Fits, weight, is_compatible-weight}
use trustbridge_contract.Contract.Monad.{Env, ok, invoke}
use trustbridge_contract.Contract.Rules.{OnOk}
use trustbridge_contract.Contract.Guards.{network_mismatch, record_event, bump_kind}
use trustbridge_contract.Contract.Guards.Serves.{Serves}
use trustbridge_contract.Contract.Upgrade.Effect.{deployed}
use trustbridge_contract.Contract.Staging.{clear_staged_wasm}
use trustbridge_contract.Contract.Multisig.{
  execute_upgrade, get_upgrade_threshold, clear_upgrade_proposal, max_upgrade_signers,
}
use trustbridge_contract.Contract.Multisig.Machine.{Signing, Life}
use trustbridge_contract.Contract.Multisig.Signers.{signing, signing-Life}
use trustbridge_contract.Contract.Multisig.Executed.{
  Reached, Executable, execute_upgrade-Executable, execute_upgrade-never,
}
use trustbridge_contract.Contract.Multisig.Answers.{execute_upgrade-returns}
use trustbridge_contract.Contract.Oracle.{verify_with_oracle_proof}
use trustbridge_contract.Contract.Oracle.Effect.{Proven, oracle_proof-Proven}
use trustbridge_contract.Contract.Migration.{migrate, get_version, resave}
use trustbridge_contract.Contract.Migration.Effect.{migrate-raises}
use trustbridge_contract.Contract.Migration.Layout.{
  Reading, Stored, ReadsAs, Renews, normalize, normalize-Renews,
}
use trustbridge_contract.Tests.{
  admin, newcomer, at_1000, start, with_alice, two_admins, alice, alice_record, alice_registry,
}

-- The contributor 10 may upgrade too, and two signers are needed.
abbrev governed : Option ℕ → State
governed threshold = record start {
  access = record two_admins { roles = put_id newcomer (some Role.upgrader) two_admins.roles };
  governance = record (start.governance) { upgrade_threshold = threshold };
}

-- The admin proposes the code 500 without delay, and the upgrader approves.
abbrev proposed : Option ℕ → State
proposed threshold = invoke (signing (Signing.propose admin 500 0)) at_1000 (governed threshold)

abbrev signed : Option ℕ → State
signed threshold = invoke (signing (Signing.approve newcomer 0)) at_1000 (proposed threshold)

signed-Reached : (threshold : Option ℕ) → Reached (signed threshold)
signed-Reached threshold =
    Reached.call (Signing.approve newcomer 0) at_1000
      (Reached.call {s = governed threshold} (Signing.propose admin 500 0) at_1000
        (Reached.fresh refl) refl)
      refl

execute_upgrade-Executable_example :
    OnOk
      (λ s'.
        (p : UpgradeProposal) × Executable admin 0 p at_1000 (signed (some 2))
        × (s'.governance
            ≡ clear_staged_wasm (
                clear_upgrade_proposal
                  (deployed admin p.wasm_hash false 1000 (signed (some 2)).governance))))
      (execute_upgrade admin 0 at_1000 (signed (some 2)))
execute_upgrade-Executable_example =
    execute_upgrade-Executable admin 0 at_1000 (signed (some 2)) (signed-Reached (some 2))

signing-Life_example :
    OnOk
      (λ s'.
        Life
          (get_upgrade_threshold (signed (some 2)).governance)
          1000
          (Signing.execute admin 0)
          (signed (some 2)).governance.proposal
          s'.governance.proposal)
      (signing (Signing.execute admin 0) at_1000 (signed (some 2)))
signing-Life_example = signing-Life at_1000 (signed (some 2)) (Signing.execute admin 0)

-- Then twenty-one signatures are asked for.
abbrev out_of_reach : State
out_of_reach =
    let s = signed (some 2) in
    record s { governance = record (s.governance) { upgrade_threshold = some 21 } }

more_than_fit : max_upgrade_signers < get_upgrade_threshold out_of_reach.governance
unfolding get_upgrade_threshold
more_than_fit = omega arith

execute_upgrade-never_example : OnOk (λ s'. ⊥) (execute_upgrade admin 0 at_1000 out_of_reach)
execute_upgrade-never_example =
    execute_upgrade-never admin 0 at_1000 out_of_reach
      (Reached.other (signed-Reached (some 2)) refl) more_than_fit

abbrev two_signed : UpgradeProposal
two_signed = record {
  id = 3;
  wasm_hash = 500;
  proposed_by = admin;
  proposed_at = 900;
  executable_at = 950;
  approvers = admin ∷ newcomer ∷ [];
}

-- The proposal is due, while the cooldown of 10000 seconds is running.
abbrev proposal_pending : State
proposal_pending = record start {
  governance = record (start.governance) {
    proposal = some two_signed;
    upgrade_threshold = some 2;
    cooldown = 10000;
    last_upgrade = some 999;
  };
}

Serves-upgrade :
    (t : AuditEventType)
    → is_some (record_event t start.audit.stats) ≡ true
    → Serves t at_1000 proposal_pending
unfolding network_mismatch
Serves-upgrade t room = record {
  initialized = refl;
  on_network = refl;
  not_paused = refl;
  audit_room = room;
}

room_for_upgrade : is_some (record_event AuditEventType.contract_upgraded start.audit.stats) ≡ true
unfolding record_event bump_kind
room_for_upgrade = refl

two_are_enough : get_upgrade_threshold proposal_pending.governance ≤ 2
unfolding get_upgrade_threshold
two_are_enough = omega arith

execute_upgrade-returns_example : (execute_upgrade admin 3 at_1000 proposal_pending).0 ≡ ok tt
execute_upgrade-returns_example =
    execute_upgrade-returns admin at_1000 proposal_pending two_signed
      (Serves-upgrade AuditEventType.contract_upgraded room_for_upgrade) refl refl refl refl
      (omega arith) two_are_enough refl refl

-- The proof of an oracle for `alice` at the address 9 without an expiry.
abbrev proof : OracleProof
proof = record {
  oracle_pubkey = 77;
  message = alice ++ (colon ∷ 74 ∷ colon ∷ 48 ∷ []);
  signature = 97 ∷ 108 ∷ zeros 62;
  expires_at = 0;
}

oracle_proof-Proven_example :
    OnOk
      (λ s'.
        (c : ContributorRecord) × Proven alice proof c at_1000 with_alice
        × (get_record s'.registry alice ≡ some (record c { verified = true })))
      (verify_with_oracle_proof alice proof at_1000 with_alice)
oracle_proof-Proven_example = oracle_proof-Proven alice proof at_1000 with_alice

ownership_message-injective_example :
    (alice ≡ alice) × (◌≡◌ {A = List ℕ} (74 ∷ []) (74 ∷ [])) × (◌≡◌ {A = ℕ} 0 0)
ownership_message-injective_example =
    ownership_message-injective alice alice (74 ∷ []) (74 ∷ []) 0 0 plain plain letter letter
      (omega arith) (omega arith) refl
  where
    plain : Lacks colon alice
    plain = omega arith

    letter : Lacks colon (74 ∷ [])
    letter = omega arith

version-Fits : (a b c : ℕ) → a ≤ 9 → b ≤ 9 → c ≤ 9 → Fits (from_tuple (a, b, c))
unfolding from_tuple
version-Fits a b c h k l = record { major = omega arith; minor = omega arith; patch = omega arith }

-- A store with the record of `alice` in an older encoding, `false`, where
-- `true` is the encoding of the day.
abbrev read_pair : Bool × ContributorRecord → Reading
read_pair (current, c) = Reading.found c

abbrev write_pair : ContributorRecord → Bool × ContributorRecord
write_pair c = (true, c)

abbrev old_entries : Stored (Bool × ContributorRecord)
old_entries = put_name alice (some (false, alice_record)) (λ _. none)

old_entries-ReadsAs : ReadsAs read_pair write_pair old_entries alice_registry
old_entries-ReadsAs k = ground arith

normalize-Renews_example :
    (st' : Stored (Bool × ContributorRecord)) × (normalize read_pair write_pair
        (alice ∷ [])
        old_entries
      ≡ some st')
    × ReadsAs read_pair write_pair st' (resave (alice ∷ []) alice_registry)
    × Renews read_pair write_pair (alice ∷ []) alice_registry old_entries st'
normalize-Renews_example =
    normalize-Renews read_pair write_pair (λ c. refl) (alice ∷ []) old_entries alice_registry
      old_entries-ReadsAs

-- A state of version 1.0.0 with one registration: the migration from it runs its step.
abbrev old : State
old = record with_alice { governance = record (with_alice.governance) { version = some (1, 0, 0) } }

migrate-raises_example :
    OnOk
      (λ s'.
        (get_version s' ≡ (1, 2, 0))
        × (weight (from_tuple (get_version old)) < weight (from_tuple (1, 2, 0)))
        × ((a : Address) × (old.control.admin ≡ some a) × (at_1000.authorized a ≡ true))
        × ((w : VersionTuple) (env' : Env)
            → Fits (from_tuple w)
            → weight (from_tuple w) ≤ weight (from_tuple (1, 2, 0))
            → OnOk (λ _. ⊥) (migrate w env' s')))
      (migrate (1, 2, 0) at_1000 old)
unfolding get_version
migrate-raises_example =
    migrate-raises (1, 2, 0) at_1000 old
      (version-Fits 1 0 0 (omega arith) (omega arith) (omega arith))
      (version-Fits 1 2 0 (omega arith) (omega arith) (omega arith))

is_compatible-weight_example :
    is_compatible_with (from_tuple (2, 0, 0)) (from_tuple (1, 9, 9))
    ≡ leb (weight (from_tuple (1, 9, 9))) (weight (from_tuple (2, 0, 0)))
is_compatible-weight_example =
    is_compatible-weight (from_tuple (2, 0, 0)) (from_tuple (1, 9, 9))
      (version-Fits 2 0 0 (omega arith) (omega arith) (omega arith))
      (version-Fits 1 9 9 (omega arith) (omega arith) (omega arith))
