-- ===== src/Contract/Run/Paused.antt =====
-- The calls that a pause stops.
use trustbridge_contract.Base.{◌≡◌, refl, Bool, true, false, ⊤, ◌||◌}
use trustbridge_contract.Error.{ContractError}
use trustbridge_contract.Types.State.{State}
use trustbridge_contract.Contract.Monad.{
  Env, M, Outcome, ok, err, trap, continue, reject_if, ◌>>=◌, invoke, settle, actions,
}
use trustbridge_contract.Contract.Rules.{OnOk, Returns, Returns-OnOk, end, steps, always}
use trustbridge_contract.Contract.Guards.{require_not_paused}
use trustbridge_contract.Contract.Guards.Same.{require_initialized-Reads, get_admin-Reads}
use trustbridge_contract.Contract.Run.{Admin, Governing, Call, administration, governing, run}
use trustbridge_contract.Contract.Register
use trustbridge_contract.Contract.Remove
use trustbridge_contract.Contract.Verify
use trustbridge_contract.Contract.Rename
use trustbridge_contract.Contract.Rotation
use trustbridge_contract.Contract.Challenge
use trustbridge_contract.Contract.Roles
use trustbridge_contract.Contract.Control
use trustbridge_contract.Contract.Upgrade
use trustbridge_contract.Contract.Staging
use trustbridge_contract.Contract.Multisig
use trustbridge_contract.Contract.Settings
use trustbridge_contract.Contract.Oracle
use trustbridge_contract.Contract.Migration

-- A pause of either kind is on.
abbrev pub closed : State → Bool
closed s = s.control.paused || s.control.emergency_pause

open_OnOk :
    {B : Type 0} (Q : State → Type 0) (b : Bool) (f : ⊤ → M B) (env : Env) (s : State)
    → (b ≡ false → Returns Q (f tt) env s)
    → OnOk Q (continue f env (reject_if b ContractError.paused env s))
unfolding actions
open_OnOk Q true f env s h = tt
open_OnOk Q false f env s h = Returns-OnOk (h refl)

module _ {B : Type 0} {Q : State → Type 0} {env : Env} {s : State} where
  step_open :
      (f : ⊤ → M B)
      → (closed s ≡ false → Returns Q (f tt) env s)
      → Returns Q (require_not_paused >>= f) env s
  unfolding require_not_paused actions
  step_open f h = end (open_OnOk Q (closed s) f env s h)

blocked_settle :
    {A : Type 0} (b : Bool) (s : State) (o : Outcome A × State)
    → OnOk (λ s'. b ≡ false) o
    → b ≡ true
    → settle s o ≡ s
blocked_settle b s (ok a, s') h k = cc
blocked_settle b s (err e, s') h k = refl
blocked_settle b s (trap, s') h k = refl

-- A call that only returns while no pause is on changes nothing under a pause.
blocked :
    {A : Type 0} (m : M A) (env : Env) (s : State)
    → closed s ≡ true
    → Returns (λ s'. closed s ≡ false) m env s
    → invoke m env s ≡ s
unfolding invoke
blocked m env s k r = blocked_settle (closed s) s (m env s) (Returns-OnOk r) k

ruleset gates = (steps, require_initialized-Reads, get_admin-Reads, step_open, always)

-- The calls that check for a pause.
abbrev pub Stops : Call → Type 0
Stops (Call.administer (Admin.propose_batch_remove a us)) = ⊤
Stops (Call.administer (Admin.request_address_rotation u a)) = ⊤
Stops (Call.administer (Admin.start_challenge a u)) = ⊤
Stops (Call.administer (Admin.cancel_challenge a u)) = ⊤
Stops (Call.administer (Admin.set_role a r)) = ⊤
Stops (Call.administer (Admin.activate_role a)) = ⊤
Stops (Call.administer (Admin.remove_role a)) = ⊤
Stops (Call.administer (Admin.set_role_with_expiry a r e)) = ⊤
Stops (Call.administer (Admin.add_verifier a e)) = ⊤
Stops (Call.administer (Admin.remove_verifier a)) = ⊤
Stops (Call.administer Admin.adopt_network_tag) = ⊤
Stops (Call.administer _) = ⊥
Stops (Call.govern (Governing.upgrade h)) = ⊤
Stops (Call.govern (Governing.stage_wasm a h)) = ⊤
Stops (Call.govern (Governing.execute_upgrade a n)) = ⊤
Stops (Call.govern (Governing.config_verification a n e m)) = ⊤
Stops (Call.govern _) = ⊥
Stops Call.compact_index = ⊥
Stops (Call.repair_index _) = ⊥
Stops _ = ⊤

-- While the contract is paused, by the admin or by an emergency pause, each of the calls that
-- `Stops` names, `upgrade`, `execute_upgrade` and `migrate` among them, changes nothing at all:
-- the state after the call is the state before it.
pub run-paused :
    (c : Call) (env : Env) (s : State)
    → Stops c
    → (s.control.paused || s.control.emergency_pause) ≡ true
    → run c env s ≡ s
unfolding run administration Control.adopt_network_tag Challenge.cancel_challenge
    Challenge.complete_challenge Challenge.start_challenge Register.register
    Register.register_sponsored Remove.batch_remove Remove.execute_batch_remove
    Remove.propose_batch_remove Remove.remove Rename.rename Roles.activate_role Roles.add_verifier
    Roles.remove_role Roles.remove_verifier Roles.set_role Roles.set_role_with_expiry
    Rotation.execute_address_rotation Rotation.request_address_rotation Verify.batch_verify
    Verify.revoke_verification Verify.set_bot_status Verify.verify governing Upgrade.upgrade
    Staging.stage_wasm Multisig.execute_upgrade Settings.config_verification
    Oracle.verify_with_oracle_proof Migration.migrate
run-paused (Call.register u a fs) env s st k = blocked _ env s k (search gates depth 10)
run-paused (Call.register_sponsored u a sp) env s st k = blocked _ env s k (search gates depth 10)
run-paused (Call.remove a u) env s st k = blocked _ env s k (search gates depth 10)
run-paused (Call.batch_remove a us) env s st k = blocked _ env s k (search gates depth 10)
run-paused (Call.execute_batch_remove a) env s st k = blocked _ env s k (search gates depth 10)
run-paused (Call.verify a u) env s st k = blocked _ env s k (search gates depth 10)
run-paused (Call.batch_verify a us) env s st k = blocked _ env s k (search gates depth 10)
run-paused (Call.revoke_verification a u n) env s st k = blocked _ env s k (search gates depth 10)
run-paused (Call.set_bot_status a u b) env s st k = blocked _ env s k (search gates depth 10)
run-paused (Call.rename a u v) env s st k = blocked _ env s k (search gates depth 10)
run-paused (Call.execute_address_rotation u) env s st k = blocked _ env s k (search gates depth 10)
run-paused (Call.complete_challenge a u) env s st k = blocked _ env s k (search gates depth 10)
run-paused (Call.administer (Admin.propose_batch_remove a us)) env s st k =
    blocked _ env s k (search gates depth 10)
run-paused (Call.administer (Admin.request_address_rotation u a)) env s st k =
    blocked _ env s k (search gates depth 10)
run-paused (Call.administer (Admin.start_challenge a u)) env s st k =
    blocked _ env s k (search gates depth 10)
run-paused (Call.administer (Admin.cancel_challenge a u)) env s st k =
    blocked _ env s k (search gates depth 10)
run-paused (Call.administer (Admin.set_role a r)) env s st k =
    blocked _ env s k (search gates depth 10)
run-paused (Call.administer (Admin.activate_role a)) env s st k =
    blocked _ env s k (search gates depth 10)
run-paused (Call.administer (Admin.remove_role a)) env s st k =
    blocked _ env s k (search gates depth 10)
run-paused (Call.administer (Admin.set_role_with_expiry a r e)) env s st k =
    blocked _ env s k (search gates depth 10)
run-paused (Call.administer (Admin.add_verifier a e)) env s st k =
    blocked _ env s k (search gates depth 10)
run-paused (Call.administer (Admin.remove_verifier a)) env s st k =
    blocked _ env s k (search gates depth 10)
run-paused (Call.administer Admin.adopt_network_tag) env s st k =
    blocked _ env s k (search gates depth 10)
run-paused (Call.verify_with_oracle_proof u p) env s st k =
    blocked _ env s k (search gates depth 10)
run-paused (Call.migrate v) env s st k = blocked _ env s k (search gates depth 10)
run-paused (Call.govern (Governing.upgrade h)) env s st k =
    blocked _ env s k (search gates depth 10)
run-paused (Call.govern (Governing.stage_wasm a h)) env s st k =
    blocked _ env s k (search gates depth 10)
run-paused (Call.govern (Governing.execute_upgrade a n)) env s st k =
    blocked _ env s k (search gates depth 10)
run-paused (Call.govern (Governing.config_verification a n e m)) env s st k =
    blocked _ env s k (search gates depth 10)
run-paused _ env s st k = elim st [ ]
