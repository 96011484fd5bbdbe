-- ===== src/Contract/Migration/Effect.antt =====
-- `migrate` and its steps (src/lib.rs:2306, src/storage.rs:2267), on records as they read.
use mathlib.Core.Path.{fun_ext, subst}
use trustbridge_contract.Base.{
  ℕ, ◌<◌, ◌≤◌, ◌≡◌, ◌∙◌, refl, sym, ap, Bool, true, false, not, ◌||◌, Option, some, List, [], ◌∷◌,
  arith, if◌then◌else◌, ltb, leb, ◌&&◌, bytes_eq, bytes_eq_iff, Option-cases, inl, inr, Bool-cases,
  saturating_add_u32,
}
use trustbridge_contract.Username.{Username}
use trustbridge_contract.Types.{Address, ContributorRecord, VersionTuple}
use trustbridge_contract.Types.State.{State, Registry, put_name}
use trustbridge_contract.Registry.{canon, get_record, set_record}
use trustbridge_contract.Registry.Coherent.{Coherent}
use trustbridge_contract.Version.{tuple_ltb, from_tuple}
use trustbridge_contract.Version.Order.{weight, Fits, tuple_ltb-weight}
use trustbridge_contract.Contract.Monad.{Env, invoke}
use trustbridge_contract.Contract.Rules.{OnOk, Returns, Returns-OnOk, steps, after_invoke}
use trustbridge_contract.Contract.Writes.{writes}
use trustbridge_contract.Contract.Guards.Same.{checks}
use trustbridge_contract.Contract.Migration.{
  migrate, get_version, resave, run_steps, run_migration_steps, normalizes, migration_steps,
}

put_same :
    (k : Username) (c : ContributorRecord) (m : Username → Option ContributorRecord) (j : Username)
    → m k ≡ some c
    → put_name k (some c) m j ≡ m j
put_same k c m j e = elim (Bool-cases (bytes_eq k j)) [
  | inl same ↦ rw same (sym e ∙ ap m ((bytes_eq_iff k j).0 same))
  | inr other ↦ rw other refl
]

-- Writing a record again changes nothing.
set_record-same :
    (u : Username) (c : ContributorRecord) (r : Registry)
    → get_record r u ≡ some c
    → set_record u c r ≡ r
unfolding set_record get_record
set_record-same u c r e =
    ap (λ (m : Username → Option ContributorRecord). record r { records = m })
      (fun_ext λ j. put_same (canon u) c r.records j e)

pub resave-same : (us : List Username) (r : Registry) → resave us r ≡ r
unfolding resave
resave-same [] r = refl
resave-same (u ∷ us) r = elim (Option-cases (get_record r u)) [
  | inl e ↦ rw e (resave-same us r)
  | inr (c, e) ↦ rw (e, set_record-same u c r e) (resave-same us r)
]

-- Whether a step applies or not, the registry stays.
step_same :
    (skips normal : Bool) (n m : ℕ) (r r' : Registry)
    → r' ≡ r
    → (λ (t : ℕ × Registry). t.1) (if skips then (n, r) else (m, if normal then r' else r)) ≡ r
step_same true normal n m r r' e = refl
step_same false true n m r r' e = e
step_same false false n m r r' e = refl

run_steps-same :
    (vs : List VersionTuple) (current target : VersionTuple) (t : ℕ × Registry)
    → (run_steps vs current target t).1 ≡ t.1
unfolding run_steps
run_steps-same [] current target t = refl
run_steps-same (v ∷ vs) current target (applied, r) =
    run_steps-same vs current target _
    ∙ step_same (tuple_ltb v current || not (tuple_ltb v target)) (normalizes v) applied
        (saturating_add_u32 applied 1) r (resave r.index r) (resave-same r.index r)

run_migration_steps-same :
    (current target : VersionTuple) (r : Registry) → (run_migration_steps current target r).1 ≡ r
unfolding run_migration_steps
run_migration_steps-same current target r = run_steps-same migration_steps current target (0, r)

-- The version that the one step starts from.
abbrev first : VersionTuple
first = (1, 0, 0)

first-Fits : Fits (from_tuple first)
unfolding from_tuple
first-Fits = record { major = omega arith; minor = omega arith; patch = omega arith }

pub run_migration_steps-window :
    (current target : VersionTuple) (r : Registry)
    → Fits (from_tuple current)
    → Fits (from_tuple target)
    → (run_migration_steps current target r).0 ≡ (
        if leb (weight (from_tuple current)) (weight (from_tuple first))
          && ltb (weight (from_tuple first)) (weight (from_tuple target))
        then 1
        else 0)
unfolding run_migration_steps run_steps
run_migration_steps-window current target r h k =
    ground (
      arith,
      tuple_ltb-weight first current first-Fits h,
      tuple_ltb-weight first target first-Fits k,
    )

migrate-Returns :
    (Q : State → Type 0) (v : VersionTuple) (env : Env) (s : State)
    → ((a : Address)
        → s.control.admin ≡ some a
        → env.authorized a ≡ true
        → not (tuple_ltb (get_version s) v) ≡ false
        → Q (record s {
          registry = (run_migration_steps (get_version s) v s.registry).1;
          governance = record (s.governance) { version = some v };
        }))
    → Returns Q (migrate v) env s
unfolding migrate
migrate-Returns Q v env s k = search (steps, checks, writes) depth 60

raised :
    (t u : VersionTuple)
    → Fits (from_tuple t)
    → Fits (from_tuple u)
    → not (tuple_ltb t u) ≡ false
    → weight (from_tuple t) < weight (from_tuple u)
raised t u h k e = ground (arith, e, tuple_ltb-weight t u h k)

-- A migration to a version that is not above the stored one never returns.
not_again :
    (v w : VersionTuple) (env : Env) (s : State)
    → get_version s ≡ v
    → Fits (from_tuple v)
    → Fits (from_tuple w)
    → weight (from_tuple w) ≤ weight (from_tuple v)
    → OnOk (λ _. ⊥) (migrate w env s)
not_again v w env s e k f below = Returns-OnOk (
    migrate-Returns (λ _. ⊥) w env s
      λ a stored auth higher.
        absurd (
          omega (arith, below, raised v w k f (subst (λ t. not (tuple_ltb t w) ≡ false) e higher))))

-- When `migrate` returns, the admin had authorized it, the new version is stored and is above the
-- one before, and afterwards no migration to it or to a lower version ever returns, whoever calls
-- it and whenever. The parts of the versions fit u32.
pub migrate-raises :
    (v : VersionTuple) (env : Env) (s : State)
    → Fits (from_tuple (get_version s))
    → Fits (from_tuple v)
    → OnOk
        (λ s'.
          (get_version s' ≡ v)
          × (weight (from_tuple (get_version s)) < weight (from_tuple v))
          × ((a : Address) × (s.control.admin ≡ some a) × (env.authorized a ≡ true))
          × ((w : VersionTuple) (env' : Env)
              → Fits (from_tuple w)
              → weight (from_tuple w) ≤ weight (from_tuple v)
              → OnOk (λ _. ⊥) (migrate w env' s')))
        (migrate v env s)
unfolding get_version
migrate-raises v env s h k = Returns-OnOk (
    migrate-Returns _ v env s λ a stored auth higher.
      (refl, raised _ v h k higher, (a, stored, auth), λ w env'. not_again v w env' _ refl k))

pub migrated-Coherent :
    (v : VersionTuple) (env : Env) (s : State)
    → Coherent s.registry
    → Coherent (invoke (migrate v) env s).registry
unfolding invoke
migrated-Coherent v env s h =
    after_invoke (λ s'. Coherent s'.registry) (migrate v) env s h
      (migrate-Returns _ v env s
        λ a stored auth higher. subst Coherent (sym (run_migration_steps-same _ v s.registry)) h)
