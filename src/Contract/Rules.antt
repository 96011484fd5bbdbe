-- ===== src/Contract/Rules.antt =====
-- Stepping through an entry point: what holds of the state when it returns.
use trustbridge_contract.Base.{◌≡◌, refl, Bool, true, false, Option, none, some, ⊤, if◌then◌else◌}
use trustbridge_contract.Error.{ContractError}
use trustbridge_contract.Types.{Address}
use trustbridge_contract.Types.State.{State}
use trustbridge_contract.Contract.Monad.{
  Env, Outcome, ok, err, trap, M, pure, ask, gets, ok_or, continue, ◌>>=◌, reject_if, require_auth,
  settle, actions,
}

-- What holds of the final state of a call that returns.
abbrev pub OnOk : {A : Type 0} → (State → Type 0) → Outcome A × State → Type 0
OnOk Q (ok _, s) = Q s
OnOk Q (err _, s) = ⊤
OnOk Q (trap, s) = ⊤

-- A call, started in a state, returns only states with the property.
pub data Returns {A : Type 0} (Q : State → Type 0) (m : M A) (env : Env) (s : State) : Type 0 where
  returns : OnOk Q (m env s) → Returns Q m env s

pub Returns-OnOk :
    {A : Type 0} {Q : State → Type 0} {m : M A} {env : Env} {s : State}
    → Returns Q m env s
    → OnOk Q (m env s)
Returns-OnOk (returns h) = h

settle_OnOk :
    {A : Type 0} (Q : State → Type 0) (s : State) (o : Outcome A × State)
    → Q s
    → OnOk Q o
    → Q (settle s o)
settle_OnOk Q s (ok _, s') h k = k
settle_OnOk Q s (err _, s') h k = h
settle_OnOk Q s (trap, s') h k = h

-- What holds before a call, and whenever it returns, holds after the transaction.
pub after_invoke :
    {A : Type 0} (Q : State → Type 0) (m : M A) (env : Env) (s : State)
    → Q s
    → Returns Q m env s
    → Q (settle s (m env s))
after_invoke Q m env s h k = settle_OnOk Q s (m env s) h (Returns-OnOk k)

-- An action that never changes the state.
pub data Reads {A : Type 0} (m : M A) : Type 0 where
  reads : ((env : Env) (s : State) → (m env s).1 ≡ s) → Reads m

module _ {A B : Type 0} {Q : State → Type 0} {env : Env} {s : State} where
  continue-OnOk :
      (f : A → M B) (o : Outcome A × State)
      → o.1 ≡ s
      → ((x : A) → o.0 ≡ ok x → Returns Q (f x) env s)
      → OnOk Q (continue f env o)
  unfolding continue
  continue-OnOk f (ok a, s') p h = rw p (Returns-OnOk (h a refl))
  continue-OnOk f (err e, s') p h = tt
  continue-OnOk f (trap, s') p h = tt

  pub step-Reads :
      (m : M A) (f : A → M B)
      → Reads m
      → ((x : A) → (m env s).0 ≡ ok x → Returns Q (f x) env s)
      → Returns Q (m >>= f) env s
  unfolding ◌>>=◌
  step-Reads m f (reads p) h = returns (continue-OnOk f (m env s) (p env s) h)

  pub step_ask :
      (g : Env → A) (f : A → M B) → Returns Q (f (g env)) env s → Returns Q (ask g >>= f) env s
  unfolding actions
  step_ask g f (returns h) = returns h

  pub step_gets :
      (g : State → A) (f : A → M B) → Returns Q (f (g s)) env s → Returns Q (gets g >>= f) env s
  unfolding actions
  step_gets g f (returns h) = returns h

  ok_or-OnOk :
      (o : Option A) (e : ContractError) (f : A → M B)
      → ((x : A) → o ≡ some x → Returns Q (f x) env s)
      → OnOk Q ((ok_or o e >>= f) env s)
  unfolding actions
  ok_or-OnOk none e f h = tt
  ok_or-OnOk (some a) e f h = Returns-OnOk (h a refl)

  pub step_ok_or :
      (o : Option A) (e : ContractError) (f : A → M B)
      → ((x : A) → o ≡ some x → Returns Q (f x) env s)
      → Returns Q (ok_or o e >>= f) env s
  step_ok_or o e f h = returns (ok_or-OnOk o e f h)

module _ {B : Type 0} {Q : State → Type 0} {env : Env} {s : State} where
  reject_OnOk :
      (b : Bool) (e : ContractError) (f : ⊤ → M B)
      → (b ≡ false → Returns Q (f tt) env s)
      → OnOk Q ((reject_if b e >>= f) env s)
  unfolding actions
  reject_OnOk true e f h = tt
  reject_OnOk false e f h = Returns-OnOk (h refl)

  pub step_reject :
      (b : Bool) (e : ContractError) (f : ⊤ → M B)
      → (b ≡ false → Returns Q (f tt) env s)
      → Returns Q (reject_if b e >>= f) env s
  step_reject b e f h = returns (reject_OnOk b e f h)

  auth_OnOk :
      (b : Bool) (f : ⊤ → M B)
      → (b ≡ true → Returns Q (f tt) env s)
      → OnOk Q (continue f env (if b then ok tt else trap, s))
  unfolding continue
  auth_OnOk true f h = Returns-OnOk (h refl)
  auth_OnOk false f h = tt

  pub step_auth :
      (a : Address) (f : ⊤ → M B)
      → (env.authorized a ≡ true → Returns Q (f tt) env s)
      → Returns Q (require_auth a >>= f) env s
  unfolding actions
  step_auth a f h = returns (auth_OnOk (env.authorized a) f h)

-- The writes at the end of an entry point.
pub end :
    {A : Type 0} {Q : State → Type 0} {m : M A} {env : Env} {s : State}
    → OnOk Q (m env s)
    → Returns Q m env s
end h = returns h

always_OnOk : {A : Type 0} (P : Type 0) (o : Outcome A × State) → P → OnOk (λ s. P) o
always_OnOk P (ok _, s) h = h
always_OnOk P (err _, s) h = tt
always_OnOk P (trap, s) h = tt

-- What holds at all holds when the call returns.
pub always :
    {A : Type 0} (P : Type 0) (m : M A) (env : Env) (s : State) → P → Returns (λ s. P) m env s
always P m env s h = returns (always_OnOk P (m env s) h)

pub weaken :
    {A : Type 0} (P Q : State → Type 0) (o : Outcome A × State)
    → OnOk P o
    → ((s : State) → P s → Q s)
    → OnOk Q o
weaken P Q (ok _, s) h k = k s h
weaken P Q (err _, s) h k = tt
weaken P Q (trap, s) h k = tt

pub ruleset steps = (step-Reads, step_ask, step_gets, step_ok_or, step_reject, step_auth)

-- Actions that only read, put together.
module _ {A B : Type 0} where
  continue_same :
      (f : A → M B) (env : Env) (s : State) (o : Outcome A × State)
      → o.1 ≡ s
      → ((x : A) → Reads (f x))
      → (continue f env o).1 ≡ s
  unfolding continue
  continue_same f env s (ok a, s') p h = same (h a)
    where
      same : Reads (f a) → (f a env s').1 ≡ s
      same (reads q) = rw (← p) (q env s')
  continue_same f env s (err e, s') p h = p
  continue_same f env s (trap, s') p h = p

  pub Reads-bind : (m : M A) (f : A → M B) → Reads m → ((x : A) → Reads (f x)) → Reads (m >>= f)
  unfolding ◌>>=◌
  Reads-bind m f (reads p) h = reads λ env s. continue_same f env s (m env s) (p env s) h

module _ {A : Type 0} where
  pub Reads-pure : (a : A) → Reads (pure a)
  unfolding actions
  Reads-pure a = reads λ env s. refl

  pub Reads-ask : (f : Env → A) → Reads (ask f)
  unfolding actions
  Reads-ask f = reads λ env s. refl

  pub Reads-gets : (f : State → A) → Reads (gets f)
  unfolding actions
  Reads-gets f = reads λ env s. refl

  pub Reads-if : (b : Bool) (m n : M A) → Reads m → Reads n → Reads (if b then m else n)
  Reads-if true m n h k = h
  Reads-if false m n h k = k

pub Reads-reject : (b : Bool) (e : ContractError) → Reads (reject_if b e)
unfolding actions
Reads-reject true e = reads λ env s. refl
Reads-reject false e = reads λ env s. refl

pub Reads-auth : (a : Address) → Reads (require_auth a)
unfolding actions
Reads-auth a = reads λ env s. refl

pub ruleset reading =
    (Reads-bind, Reads-pure, Reads-ask, Reads-gets, Reads-if, Reads-reject, Reads-auth)
