-- ===== src/Contract/Rename/Effect.antt =====
-- What a renaming does to the registry.
use trustbridge_contract.Base.{
  ℕ, ◌-◌, ◌≡◌, ◌≢◌, ◌<◌, ◌∙◌, refl, ap, Option, none, some, arith, false, if◌then◌else◌, Bool,
  u32_max, is_some, bytes_eq_iff,
}
use trustbridge_contract.Username.{Username}
use trustbridge_contract.Types.{Address, ContributorRecord}
use trustbridge_contract.Types.State.{State, Registry}
use trustbridge_contract.Registry.{
  get_record, set_record, add_to_index, erase_record, remove_from_index, set_verified_count,
  has_record, canon,
}
use trustbridge_contract.Registry.Coherent.{
  Coherent, enroll, withdraw, enroll-Coherent, withdraw-Coherent, share-le,
}
use trustbridge_contract.Names.{get_pending_reverify}
use trustbridge_contract.Contract.Monad.{Env, invoke}
use trustbridge_contract.Contract.Rules.{OnOk, Returns, Returns-OnOk, steps, after_invoke}
use trustbridge_contract.Contract.Writes.{writes}
use trustbridge_contract.Contract.Guards.Same.{checks, step_refuse}
use trustbridge_contract.Contract.Rename.{moved, carry_over, rename}

-- The writes, in the order of the code.
unfoldable pub renamed : Username → Username → ContributorRecord → ℕ → Registry → Registry
renamed old new c now r =
    let lowered = if c.verified then set_verified_count (r.verified_count - 1) r else r in
    remove_from_index old
      (erase_record old (add_to_index new (set_record new (moved c now) lowered)))

carry_over-renamed :
    (P : Registry → Type 0) (old new : Username) (c : ContributorRecord) (b : Bool) (now : ℕ)
    (env : Env) (s : State)
    → P (renamed old new c now s.registry)
    → Returns (λ s'. P s'.registry) (carry_over old new c b now) env s
unfolding carry_over renamed
carry_over-renamed P old new c b now env s h = search (writes) depth 40

rename-Returns :
    (Q : State → Type 0) (caller : Address) (old new : Username) (env : Env) (s : State)
    → ((c : ContributorRecord)
        → get_record s.registry old ≡ some c
        → has_record s.registry new ≡ false
        → Returns Q (carry_over old new c (get_pending_reverify s.names old) env.timestamp) env s)
    → Returns Q (rename caller old new) env s
unfolding rename
rename-Returns Q caller old new env s h = search (steps, checks, step_refuse) depth 60

none_left : (o : Option ContributorRecord) → is_some o ≡ false → o ≡ none
none_left none h = refl
none_left (some c) h = cc

some_apart :
    (old new : Username) (c : ContributorRecord) (r : Registry)
    → get_record r old ≡ some c
    → get_record r new ≡ none
    → canon old ≢ canon new
unfolding get_record
some_apart old new c r stored absent same = ground (arith, ap r.records same)

module _ (old new : Username) (c : ContributorRecord) (now : ℕ) (r : Registry) where
  renamed-withdraw :
      r.count < u32_max
      → renamed old new c now r
        ≡ withdraw old
            (if c.verified then r.verified_count - 1 else r.verified_count)
            (enroll new (moved c now) r)
  unfolding renamed withdraw enroll set_record erase_record add_to_index remove_from_index
  renamed-withdraw room = ground arith

  enroll_keeps :
      canon old ≢ canon new → get_record (enroll new (moved c now) r) old ≡ get_record r old
  unfolding enroll get_record set_record add_to_index
  enroll_keeps other = ground (arith, bytes_eq_iff (canon new) (canon old))

  enroll_verified : (enroll new (moved c now) r).verified_count ≡ r.verified_count
  unfolding enroll set_record add_to_index
  enroll_verified = ground arith

  untaken_absent : canon new ≡ new → has_record r new ≡ false → get_record r new ≡ none
  unfolding has_record get_record
  untaken_absent lower untaken = ap r.records lower ∙ (none_left (r.records new) untaken)

  renamed-Coherent :
      Coherent r
      → r.count < u32_max
      → canon new ≡ new
      → get_record r old ≡ some c
      → has_record r new ≡ false
      → Coherent (renamed old new c now r)
  renamed-Coherent h room lower stored untaken =
      let absent = untaken_absent lower untaken in
      rw (renamed-withdraw room) (
        withdraw-Coherent old c _ _ (enroll-Coherent new (moved c now) r h absent refl room)
          (enroll_keeps (some_apart old new c r stored absent) ∙ stored)
          (ground (arith, enroll_verified, share-le old c r h stored)))

-- A renaming to a lower case name keeps the registry coherent.
pub rename-Coherent :
    (caller : Address) (old new : Username) (env : Env) (s : State)
    → Coherent s.registry
    → s.registry.count < u32_max
    → canon new ≡ new
    → Coherent (invoke (rename caller old new) env s).registry
unfolding invoke
rename-Coherent caller old new env s h room lower =
    after_invoke (λ s'. Coherent s'.registry) (rename caller old new) env s h
      (rename-Returns _ caller old new env s λ c stored untaken.
        carry_over-renamed Coherent old new c _ env.timestamp env s
          (renamed-Coherent old new c env.timestamp s.registry h room lower stored untaken))

-- Whoever renames to another spelling of the same name loses the registration.
renamed_lost :
    (old new : Username) (c : ContributorRecord) (now : ℕ) (r : Registry)
    → canon old ≡ canon new
    → (get_record (renamed old new c now r) new ≡ none)
      × ((renamed old new c now r).count ≡ r.count)
unfolding renamed get_record set_record erase_record add_to_index remove_from_index
renamed_lost old new c now r same = ground (arith, bytes_eq_iff (canon old) (canon new))

-- When `rename` returns and the old and the new name have one storage key, the new name has no
-- record afterwards, while the count is what it was.
pub rename-case_only_loses :
    (caller : Address) (old new : Username) (env : Env) (s : State)
    → canon old ≡ canon new
    → OnOk
        (λ s'. (get_record s'.registry new ≡ none) × (s'.registry.count ≡ s.registry.count))
        (rename caller old new env s)
rename-case_only_loses caller old new env s same = Returns-OnOk (
    rename-Returns _ caller old new env s λ c stored untaken.
      carry_over-renamed (λ r. (get_record r new ≡ none) × (r.count ≡ s.registry.count)) old new c _
        env.timestamp env s (renamed_lost old new c env.timestamp s.registry same))
