-- ===== src/Contract/Writes.antt =====
-- Stepping through the writes of an entry point: what each does to the state, when it returns.
use trustbridge_contract.Base.{⊤, Option, none, some}
use trustbridge_contract.Error.{ContractError}
use trustbridge_contract.Types.{AuditLogEntry, AuditStats}
use trustbridge_contract.Types.Event.{Event, EventDomain}
use trustbridge_contract.Types.State.{State, Audit, Outbox}
use trustbridge_contract.Contract.Monad.{
  Env, Outcome, ok, err, trap, M, pure, gets, fail, continue, ◌>>=◌, modify, actions,
}
use trustbridge_contract.Contract.Rules.{OnOk, Returns, returns, Returns-OnOk}
use trustbridge_contract.Contract.Guards.{
  log_to, event_domain, publish, set_last_event_ledger, push_audit_entry, record_event,
}

audit_OnOk :
    {B : Type 0} (Q : State → Type 0) (env : Env) (s : State) (o : Option AuditStats)
    (e : AuditLogEntry) (f : ⊤ → M B)
    → ((a : Audit) → Returns Q (f tt) env (record s { audit = a }))
    → OnOk Q (continue f env (log_to o e env s))
unfolding log_to actions
audit_OnOk Q env s none e f h = tt
audit_OnOk Q env s (some st) e f h = Returns-OnOk (h _)

last_audit_OnOk :
    (Q : State → Type 0) (env : Env) (s : State) (o : Option AuditStats) (e : AuditLogEntry)
    → ((a : Audit) → Q (record s { audit = a }))
    → OnOk Q (log_to o e env s)
unfolding log_to
last_audit_OnOk Q env s none e h = tt
last_audit_OnOk Q env s (some st) e h = h _

assoc_OnOk :
    {A B C : Type 0} (Q : State → Type 0) (env : Env) (k : A → M B) (f : B → M C)
    (o : Outcome A × State)
    → OnOk Q (continue (λ x. k x >>= f) env o)
    → OnOk Q (continue f env (continue k env o))
unfolding continue ◌>>=◌
assoc_OnOk Q env k f (ok a, s') h = h
assoc_OnOk Q env k f (err e, s') h = h
assoc_OnOk Q env k f (trap, s') h = h

module _ {B : Type 0} {Q : State → Type 0} {env : Env} {s : State} where
  pub write_state :
      (g : State → State) (f : ⊤ → M B)
      → Returns Q (f tt) env (g s)
      → Returns Q (modify g >>= f) env s
  unfolding actions
  write_state g f (returns h) = returns h

  -- The outbox is written by the events alone.
  pub write_domain :
      (f : EventDomain → M B)
      → ((d : EventDomain) (o : Outbox) → Returns Q (f d) env (record s { outbox = o }))
      → Returns Q (event_domain >>= f) env s
  unfolding event_domain actions
  write_domain f h = returns (Returns-OnOk (h _ _))

  pub write_event :
      (e : Event) (f : ⊤ → M B)
      → ((o : Outbox) → Returns Q (f tt) env (record s { outbox = o }))
      → Returns Q (publish e >>= f) env s
  unfolding publish actions
  write_event e f h = returns (Returns-OnOk (h _))

  pub write_ledger :
      (f : ⊤ → M B)
      → ((o : Outbox) → Returns Q (f tt) env (record s { outbox = o }))
      → Returns Q (set_last_event_ledger >>= f) env s
  unfolding set_last_event_ledger actions
  write_ledger f h = returns (Returns-OnOk (h _))

  pub write_audit :
      (e : AuditLogEntry) (f : ⊤ → M B)
      → ((a : Audit) → Returns Q (f tt) env (record s { audit = a }))
      → Returns Q (push_audit_entry e >>= f) env s
  unfolding ◌>>=◌ push_audit_entry
  write_audit e f h = returns (audit_OnOk Q env s (record_event e.event_type s.audit.stats) e f h)

-- Two steps of a nested block, and the cases of a test.
module _ {A B C : Type 0} {Q : State → Type 0} {env : Env} {s : State} where
  pub write_nested :
      (m : M A) (k : A → M B) (f : B → M C)
      → Returns Q (m >>= λ x. k x >>= f) env s
      → Returns Q ((m >>= k) >>= f) env s
  unfolding ◌>>=◌
  write_nested m k f (returns h) = returns (assoc_OnOk Q env k f (m env s) h)

module _ {A B : Type 0} {Q : State → Type 0} {env : Env} {s : State} where
  pub write_pure : (a : A) (f : A → M B) → Returns Q (f a) env s → Returns Q (pure a >>= f) env s
  unfolding actions
  write_pure a f (returns h) = returns h

unit_OnOk :
    {A : Type 0} (Q : State → Type 0) (env : Env) (o : Outcome A × State)
    → OnOk Q (continue pure env o)
    → OnOk Q o
unfolding actions
unit_OnOk Q env (ok a, s') h = h
unit_OnOk Q env (err e, s') h = h
unit_OnOk Q env (trap, s') h = h

-- An action is followed by nothing.
pub at_end :
    {A : Type 0} (Q : State → Type 0) (m : M A) (env : Env) (s : State)
    → Returns Q (m >>= pure) env s
    → Returns Q m env s
unfolding ◌>>=◌
at_end Q m env s (returns h) = returns (unit_OnOk Q env (m env s) h)

-- The last step.
module _ {Q : State → Type 0} {env : Env} {s : State} where
  pub last_pure : {A : Type 0} (a : A) → Q s → Returns Q (pure a) env s
  unfolding actions
  last_pure a h = returns h

  pub last_gets : {A : Type 0} (f : State → A) → Q s → Returns Q (gets f) env s
  unfolding actions
  last_gets f h = returns h

  pub last_write : (g : State → State) → Q (g s) → Returns Q (modify g) env s
  unfolding actions
  last_write g h = returns h

  pub last_event :
      (e : Event) → ((o : Outbox) → Q (record s { outbox = o })) → Returns Q (publish e) env s
  unfolding publish actions
  last_event e h = returns (h _)

  pub last_fail : {A : Type 0} (e : ContractError) → Returns Q (fail {A = A} e) env s
  unfolding actions
  last_fail e = returns tt

  pub last_audit :
      (e : AuditLogEntry)
      → ((a : Audit) → Q (record s { audit = a }))
      → Returns Q (push_audit_entry e) env s
  unfolding push_audit_entry
  last_audit e h = returns (last_audit_OnOk Q env s (record_event e.event_type s.audit.stats) e h)

pub ruleset writes = (
  write_state, write_domain, write_event, write_ledger, write_audit, write_nested, write_pure,
  last_pure, last_gets, last_write, last_event, last_fail, last_audit,
)
