-- ===== src/Contract/Register/Effect.antt =====
-- What a registration does to the registry.
use trustbridge_contract.Base.{
  ℕ, ◌-◌, ◌≡◌, refl, Option, none, some, List, [], ◌∷◌, arith, not, ◌&&◌, ◌==◌, true, false, sym,
  ◌≤◌, ◌<◌, ◌+◌, u32_max,
}
use mathlib.Core.Path.{subst}
use trustbridge_contract.Registry.Verified.{one_if_verified}
use trustbridge_contract.Username.{Username}
use trustbridge_contract.Types.{Address, ContributorRecord}
use trustbridge_contract.Types.State.{State, Registry}
use trustbridge_contract.Registry.{get_record}
use trustbridge_contract.Registry.Coherent.{
  Coherent, enroll, rewrite, enroll-Coherent, rewrite-Coherent, share-le,
}
use trustbridge_contract.Contract.Monad.{Env, actions, invoke}
use trustbridge_contract.Contract.Rules.{
  OnOk, Returns, end, Reads, steps, reading, weaken, after_invoke,
}
use trustbridge_contract.Contract.Guards.{
  event_domain, publish, set_last_event_ledger, push_audit_entry,
}
use trustbridge_contract.Contract.Guards.Same.{checks}
use trustbridge_contract.Contract.Register.{
  check_fallbacks, require_old_holder, new_record, commit, register, register_sponsored,
}

-- The registry after a commit of `u` for `a`.
abbrev pub Committed : Username → Option ContributorRecord → Address → ℕ → State → State → Type 0
Committed u none a t s s' = s'.registry ≡ enroll u (new_record none a t) s.registry
Committed u (some old) a t s s' =
    s'.registry
    ≡ rewrite u (new_record (some old) a t)
        (elim (not (old.stellar_address == a) && old.verified) [
          | true ↦ s.registry.verified_count - 1
          | false ↦ s.registry.verified_count
        ])
        s.registry

commit-Committed :
    (u : Username) (o : Option ContributorRecord) (a : Address) (sp : Option Address) (t : ℕ)
    (env : Env) (s : State)
    → OnOk (Committed u o a t s) (commit u o a sp t env s)
unfolding actions commit enroll rewrite event_domain publish set_last_event_ledger push_audit_entry
commit-Committed u none a sp t env s = ground arith
commit-Committed u (some old) a sp t env s = ground arith

pub check_fallbacks-Reads : (a : Address) (fs : List Address) → Reads (check_fallbacks a fs)
unfolding check_fallbacks
check_fallbacks-Reads a [] = search reading
check_fallbacks-Reads a (f ∷ fs) = search (reading, check_fallbacks-Reads a fs) depth 10

require_old_holder-Reads :
    (o : Option ContributorRecord) (a : Address) → Reads (require_old_holder o a)
unfolding require_old_holder
require_old_holder-Reads none a = search reading
require_old_holder-Reads (some old) a = search reading

-- Every check of `register` leaves the state alone.
register-Returns :
    (Q : State → Type 0) (u : Username) (a : Address) (fs : List Address) (env : Env) (s : State)
    → Returns Q (commit u (get_record s.registry u) a none env.timestamp) env s
    → Returns Q (register u a fs) env s
unfolding register
register-Returns Q u a fs env s h =
    search (steps, checks, check_fallbacks-Reads, require_old_holder-Reads) depth 40

register_sponsored-Returns :
    (Q : State → Type 0) (u : Username) (a sponsor : Address) (env : Env) (s : State)
    → Returns Q (commit u (get_record s.registry u) a (some sponsor) env.timestamp) env s
    → Returns Q (register_sponsored u a sponsor) env s
unfolding register_sponsored
register_sponsored-Returns Q u a sponsor env s h =
    search (steps, checks, require_old_holder-Reads) depth 40

-- The verified counter after a commit over an old record.
moved_count :
    (old : ContributorRecord) (a : Address) (t : ℕ) (r : Registry)
    → one_if_verified (some old) ≤ r.verified_count
    → (elim (not (old.stellar_address == a) && old.verified) [
      | true ↦ r.verified_count - 1
      | false ↦ r.verified_count
    ])
        + one_if_verified (some old)
      ≡ r.verified_count + one_if_verified (some (new_record (some old) a t))
unfolding new_record
moved_count old a t r h = ground arith

Committed-Coherent :
    (u : Username) (a : Address) (t : ℕ) (s : State)
    → Coherent s.registry
    → s.registry.count < u32_max
    → (o : Option ContributorRecord) → get_record s.registry u ≡ o
    → (s' : State) → Committed u o a t s s'
    → Coherent s'.registry
unfolding new_record
Committed-Coherent u a t s h room none e s' c =
    subst Coherent (sym c) (enroll-Coherent u _ s.registry h e refl room)
Committed-Coherent u a t s h room (some old) e s' c = subst Coherent (sym c) (
    rewrite-Coherent u old _ _ s.registry h e
      (moved_count old a t s.registry (share-le u old s.registry h e)))

pub register-Coherent :
    (u : Username) (a : Address) (fs : List Address) (env : Env) (s : State)
    → Coherent s.registry
    → s.registry.count < u32_max
    → Coherent (invoke (register u a fs) env s).registry
unfolding invoke
register-Coherent u a fs env s h room =
    after_invoke (λ s'. Coherent s'.registry) (register u a fs) env s h
      (register-Returns _ u a fs env s (
        end (
          weaken _ _ _ (commit-Committed u (get_record s.registry u) a none env.timestamp env s)
            (Committed-Coherent u a env.timestamp s h room (get_record s.registry u) refl))))

pub register_sponsored-Coherent :
    (u : Username) (a sponsor : Address) (env : Env) (s : State)
    → Coherent s.registry
    → s.registry.count < u32_max
    → Coherent (invoke (register_sponsored u a sponsor) env s).registry
unfolding invoke
register_sponsored-Coherent u a sponsor env s h room =
    after_invoke (λ s'. Coherent s'.registry) (register_sponsored u a sponsor) env s h
      (register_sponsored-Returns _ u a sponsor env s (
        end (
          weaken _ _ _
            (commit-Committed u (get_record s.registry u) a (some sponsor) env.timestamp env s)
            (Committed-Coherent u a env.timestamp s h room (get_record s.registry u) refl))))
