-- ===== src/Contract/Run/Frame.antt =====
-- Actions that leave the registry alone, put together.
use trustbridge_contract.Base.{
  ℕ, List, ◌≡◌, refl, ◌∙◌, Bool, true, false, Option, none, some, arith, if◌then◌else◌,
}
use trustbridge_contract.Error.{ContractError}
use trustbridge_contract.Types.{Address, AuditLogEntry}
use trustbridge_contract.Types.Event.{Event}
use trustbridge_contract.Types.State.{State}
use trustbridge_contract.Contract.Monad.{
  Env, M, Outcome, ok, err, trap, pure, fail, ask, gets, ok_or, continue, ◌>>=◌, modify, reject_if,
  require_auth, invoke, settle, actions,
}
use trustbridge_contract.Contract.Guards.{
  event_domain, publish, push_audit_entry, refuse_if, record_unauthorized_attempt,
}
use trustbridge_contract.Contract.Rules.{Reads, reads}
use trustbridge_contract.Contract.Guards.Same.{
  require_initialized-Reads, require_not_paused-Reads, get_admin-Reads,
  require_role_not_expired-Reads,
}

-- An action that does not write to the registry, whatever its outcome.
pub data Keeps {A : Type 0} (m : M A) : Type 0 where
  keeps : ((env : Env) (s : State) → (m env s).1.registry ≡ s.registry) → Keeps m

module _ {A B : Type 0} where
  continue-Keeps :
      (f : A → M B) (env : Env) (o : Outcome A × State)
      → ((x : A) → Keeps (f x))
      → (continue f env o).1.registry ≡ o.1.registry
  unfolding continue
  continue-Keeps f env (ok a, s) h = kept (h a)
    where
      kept : Keeps (f a) → (f a env s).1.registry ≡ s.registry
      kept (keeps p) = p env s
  continue-Keeps f env (err e, s) h = refl
  continue-Keeps f env (trap, s) h = refl

  pub Keeps-bind : (m : M A) (f : A → M B) → Keeps m → ((x : A) → Keeps (f x)) → Keeps (m >>= f)
  unfolding ◌>>=◌
  Keeps-bind m f (keeps p) h = keeps λ env s. continue-Keeps f env (m env s) h ∙ p env s

module _ {A : Type 0} where
  pub Keeps-Reads : (m : M A) → Reads m → Keeps m
  Keeps-Reads m (reads p) = keeps λ env s. rw (p env s) refl

  pub Keeps-pure : (a : A) → Keeps (pure a)
  unfolding actions
  Keeps-pure a = keeps λ env s. refl

  pub Keeps-fail : (e : ContractError) → Keeps (fail {A = A} e)
  unfolding actions
  Keeps-fail e = keeps λ env s. refl

  pub Keeps-ask : (f : Env → A) → Keeps (ask f)
  unfolding actions
  Keeps-ask f = keeps λ env s. refl

  pub Keeps-gets : (f : State → A) → Keeps (gets f)
  unfolding actions
  Keeps-gets f = keeps λ env s. refl

  pub Keeps-ok_or : (o : Option A) (e : ContractError) → Keeps (ok_or o e)
  unfolding actions
  Keeps-ok_or (some a) e = keeps λ env s. refl
  Keeps-ok_or none e = keeps λ env s. refl

  pub Keeps-if :
      (b : Bool) (m n : M A) → Keeps m → Keeps n → Keeps (elim b [ true ↦ m | false ↦ n ])
  Keeps-if true m n h k = h
  Keeps-if false m n h k = k

  pub Keeps-if_then : (b : Bool) (m n : M A) → Keeps m → Keeps n → Keeps (if b then m else n)
  Keeps-if_then true m n h k = h
  Keeps-if_then false m n h k = k

  pub Keeps-case :
      {B : Type 0} (o : Option B) (m : M A) (n : B → M A)
      → Keeps m
      → ((b : B) → Keeps (n b))
      → Keeps (elim o [ none ↦ m | some b ↦ n b ])
  Keeps-case none m n h k = h
  Keeps-case (some b) m n h k = k b

pub Keeps-reject : (b : Bool) (e : ContractError) → Keeps (reject_if b e)
unfolding actions
Keeps-reject true e = keeps λ env s. refl
Keeps-reject false e = keeps λ env s. refl

pub Keeps-auth : (a : Address) → Keeps (require_auth a)
unfolding actions
Keeps-auth a = keeps λ env s. refl

pub Keeps-write :
    (g : State → State) → ((s : State) → (g s).registry ≡ s.registry) → Keeps (modify g)
unfolding actions
Keeps-write g h = keeps λ env s. h s

pub Keeps-domain : Keeps event_domain
unfolding event_domain
Keeps-domain = keeps λ env s. refl

pub Keeps-event : (e : Event) → Keeps (publish e)
unfolding publish actions
Keeps-event e = keeps λ env s. refl

pub Keeps-audit : (e : AuditLogEntry) → Keeps (push_audit_entry e)
unfolding push_audit_entry
Keeps-audit e = keeps λ env s. ground arith

pub Keeps-refuse : (b : Bool) (a : Address) (t : List ℕ) → Keeps (refuse_if b a t)
unfolding refuse_if actions record_unauthorized_attempt push_audit_entry
Keeps-refuse b a t = keeps λ env s. ground arith

pub ruleset keeping = (
  Keeps-bind, Keeps-pure, Keeps-fail, Keeps-ask, Keeps-gets, Keeps-ok_or, Keeps-if, Keeps-if_then,
  Keeps-case, Keeps-reject, Keeps-auth, Keeps-write, Keeps-domain, Keeps-event, Keeps-audit,
  Keeps-refuse, Keeps-Reads, require_initialized-Reads, require_not_paused-Reads, get_admin-Reads,
  require_role_not_expired-Reads, refl,
)

settle_keeps :
    {A : Type 0} (s : State) (o : Outcome A × State)
    → o.1.registry ≡ s.registry
    → (settle s o).registry ≡ s.registry
settle_keeps s (ok a, s') h = h
settle_keeps s (err e, s') h = refl
settle_keeps s (trap, s') h = refl

-- A call that keeps the registry keeps it after the transaction.
pub invoke-Keeps :
    {A : Type 0} (m : M A) (env : Env) (s : State)
    → Keeps m
    → (invoke m env s).registry ≡ s.registry
unfolding invoke
invoke-Keeps m env s (keeps p) = settle_keeps s (m env s) (p env s)
