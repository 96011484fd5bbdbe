-- ===== src/Contract/Remove/DualControl.antt =====
-- The dual control of large batches: proposal, execution by a second key.
use trustbridge_contract.Base.{
  Bool, ℕ, ◌≡◌, ◌≢◌, ◌≤◌, refl, arith, true, false, not, ◌||◌, ◌==◌, some, u32_max, ⊤,
}
use trustbridge_contract.Types.{Address, PendingBatchRemove, Role}
use trustbridge_contract.Types.State.{State}
use trustbridge_contract.Registry.Coherent.{Coherent}
use trustbridge_contract.Contract.Monad.{Env, M, ◌>>=◌, actions, invoke}
use trustbridge_contract.Contract.Rules.{
  OnOk, always, Returns, Returns-OnOk, steps, after_invoke, end, reading,
}
use trustbridge_contract.Contract.Writes.{writes, write_state}
use trustbridge_contract.Contract.Guards.{holds_role}
use trustbridge_contract.Contract.Guards.Same.{checks, step_refuse}
use trustbridge_contract.Contract.Remove.{
  carry_out, drop_if_expired, execute_batch_remove, is_proposal_expired,
}
use trustbridge_contract.Contract.Remove.Batch.{apply_batch_remove-Coherent}

-- An expired proposal never returns.
module _ {B : Type 0} {Q : State → Type 0} {env : Env} {s : State} where
  drop_OnOk :
      (b : Bool) (f : ⊤ → M B)
      → (b ≡ false → Returns Q (f tt) env s)
      → OnOk Q ((drop_if_expired b >>= f) env s)
  unfolding drop_if_expired actions
  drop_OnOk true f h = tt
  drop_OnOk false f h = Returns-OnOk (h refl)

  step_drop :
      (b : Bool) (f : ⊤ → M B)
      → (b ≡ false → Returns Q (f tt) env s)
      → Returns Q (drop_if_expired b >>= f) env s
  step_drop b f h = end (drop_OnOk b f h)

-- The caller may execute the proposal.
pub record MayExecute (env : Env) (s : State) (caller : Address) (p : PendingBatchRemove)
    : Type 0 where
  pub admin : Address
  pub admin_stored : s.control.admin ≡ some admin
  pub proposed : s.names.pending_batch_remove ≡ some p
  pub live : is_proposal_expired env.timestamp p ≡ false
  pub authorized : env.authorized caller ≡ true
  pub second_key : caller ≢ p.proposed_by
  pub admin_equivalent : (caller == admin || holds_role env s.access caller Role.admin) ≡ true

checked :
    (Q : State → Type 0) (env : Env) (caller : Address) (s : State)
    → ((p : PendingBatchRemove) (a : Address)
        → s.control.admin ≡ some a
        → is_proposal_expired env.timestamp p ≡ false
        → env.authorized caller ≡ true
        → s.names.pending_batch_remove ≡ some p
        → (not (caller == a || holds_role env s.access caller Role.admin)
            || caller == p.proposed_by)
          ≡ false
        → Returns Q (carry_out caller p env.timestamp) env s)
    → Returns Q (execute_batch_remove caller) env s
unfolding execute_batch_remove
checked Q env caller s h = search (steps, checks, reading, step_refuse, step_drop) depth 40

both_false : (a b : Bool) → (not a || b) ≡ false → (a ≡ true) × (b ≡ false)
both_false a b h = ground arith

other_key : (a b : ℕ) → (a == b) ≡ false → a ≢ b
other_key a b h = ground arith

execute-Returns :
    (Q : State → Type 0) (env : Env) (caller : Address) (s : State)
    → ((p : PendingBatchRemove)
        → MayExecute env s caller p
        → Returns Q (carry_out caller p env.timestamp) env s)
    → Returns Q (execute_batch_remove caller) env s
execute-Returns Q env caller s h = checked Q env caller s λ p a stored live auth proposed refused.
    let (may, other) = both_false _ _ refused in
    h p (record {
      admin = a;
      admin_stored = stored;
      proposed = proposed;
      live = live;
      authorized = auth;
      second_key = other_key caller p.proposed_by other;
      admin_equivalent = may;
    })

-- The executed removal keeps the registry coherent.
carry_out-Coherent :
    (env : Env) (caller : Address) (p : PendingBatchRemove) (s : State)
    → Coherent s.registry
    → s.registry.count ≤ u32_max
    → Returns (λ s'. Coherent s'.registry) (carry_out caller p env.timestamp) env s
unfolding carry_out
carry_out-Coherent env caller p s h fits = write_state _ _ (
    apply_batch_remove-Coherent _ _ env caller p.usernames _ h fits
      λ b s' h'. search (writes) depth 40)

pub execute_batch_remove-Coherent :
    (caller : Address) (env : Env) (s : State)
    → Coherent s.registry
    → s.registry.count ≤ u32_max
    → Coherent (invoke (execute_batch_remove caller) env s).registry
unfolding invoke
execute_batch_remove-Coherent caller env s h fits =
    after_invoke (λ s'. Coherent s'.registry) (execute_batch_remove caller) env s h
      (execute-Returns _ env caller s λ p may. carry_out-Coherent env caller p s h fits)

-- When `execute_batch_remove` returns, the caller had authorized it and was the admin or held an
-- unexpired admin role, there was a pending proposal that had not expired, and the caller was not
-- the one who proposed it.
pub execute-MayExecute :
    (caller : Address) (env : Env) (s : State)
    → OnOk
        (λ s'. (p : PendingBatchRemove) × MayExecute env s caller p)
        (execute_batch_remove caller env s)
execute-MayExecute caller env s = Returns-OnOk (
    execute-Returns _ env caller s λ p may.
      always ((p : PendingBatchRemove) × MayExecute env s caller p)
        (carry_out caller p env.timestamp) env s (p, may))
