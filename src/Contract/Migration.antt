-- ===== src/Contract/Migration.antt =====
-- Versions and migrations: `get_version`, `is_compatible` and `migrate` (src/lib.rs:1189), and
-- the migration steps (src/storage.rs:2233).
pub mod Effect
pub mod Layout
use trustbridge_contract.Base.{
  ℕ, Bool, true, false, not, ◌||◌, Option, none, some, List, [], ◌∷◌, ⊤, if◌then◌else◌,
  saturating_add_u32,
}
use trustbridge_contract.Error.{ContractError}
use trustbridge_contract.Username.{Username}
use trustbridge_contract.Types.{VersionTuple}
use trustbridge_contract.Types.State.{State, Registry}
use trustbridge_contract.Registry.{get_record, set_record}
use trustbridge_contract.Version.{tuple_ltb, is_compatible_with, from_tuple}
use trustbridge_contract.Contract.Monad.{
  Env, M, pure, ask, gets, ◌>>=◌, ◌>>◌, reject_if, require_auth, on_registry, on_governance,
}
use trustbridge_contract.Contract.Guards.{
  require_initialized, require_not_paused, get_admin, version_or_default,
}

unfoldable pub get_version : State → VersionTuple
get_version s = version_or_default s.governance

-- `version` reads the same entry, as `get_version` does.
unfoldable pub is_compatible : VersionTuple → State → Bool
unfolding get_version
is_compatible minimum s = is_compatible_with (from_tuple (get_version s)) (from_tuple minimum)

-- `MIGRATION_STEPS`: the version that each step starts from.
abbrev pub migration_steps : List VersionTuple
migration_steps = (1, 0, 0) ∷ []

-- The loop over the index, on records as they read: each is written again. On entries as they are
-- stored it is `normalize` of Migration/Layout.
unfoldable pub resave : List Username → Registry → Registry
resave [] r = r
resave (u ∷ us) r = resave us (elim (get_record r u) [ none ↦ r | some c ↦ set_record u c r ])

-- `step.from_version == (1, 0, 0)`.
abbrev pub normalizes : VersionTuple → Bool
normalizes v = not (tuple_ltb v (1, 0, 0) || tuple_ltb (1, 0, 0) v)

-- The loop over the steps: the steps applied so far, and the registry.
unfoldable pub run_steps :
    List VersionTuple → VersionTuple → VersionTuple → ℕ × Registry → ℕ × Registry
run_steps [] current target t = t
run_steps (v ∷ vs) current target (applied, r) = run_steps vs current target (
    if tuple_ltb v current || not (tuple_ltb v target)
    then (applied, r)
    else (saturating_add_u32 applied 1, if normalizes v then resave r.index r else r))

unfoldable pub run_migration_steps : VersionTuple → VersionTuple → Registry → ℕ × Registry
run_migration_steps current target r = run_steps migration_steps current target (0, r)

unfoldable pub migrate : VersionTuple → M ⊤
migrate new_version = do
  require_initialized
  require_not_paused
  admin ← get_admin
  require_auth admin
  s ← gets (λ s. s)
  reject_if (not (tuple_ltb (get_version s) new_version)) ContractError.invalid_version
  on_registry (λ r. (run_migration_steps (get_version s) new_version r).1)
  on_governance (λ g. record g { version = some new_version })
