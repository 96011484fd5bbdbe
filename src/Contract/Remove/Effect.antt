-- ===== src/Contract/Remove/Effect.antt =====
-- What a removal does to the registry.
use trustbridge_contract.Base.{
  ℕ, ◌-◌, ◌≡◌, none, bytes_eq_refl, some, arith, true, false, if◌then◌else◌,
}
use trustbridge_contract.Username.{Username}
use trustbridge_contract.Types.{Address, ContributorRecord}
use trustbridge_contract.Types.State.{State, Registry}
use trustbridge_contract.Registry.{
  canon, get_record, erase_record, remove_from_index, set_count, set_verified_count,
}
use trustbridge_contract.Registry.Coherent.{Coherent, withdraw, withdraw-Coherent, share-le}
use trustbridge_contract.Contract.Monad.{Env, invoke}
use trustbridge_contract.Contract.Rules.{Returns, steps, after_invoke}
use trustbridge_contract.Contract.Writes.{writes}
use trustbridge_contract.Contract.Guards.Same.{checks, step_refuse}
use trustbridge_contract.Contract.Remove.{take_out, remove}

-- The verified counter after the record is gone.
abbrev pub counter_without : ContributorRecord → Registry → ℕ
counter_without c r = elim c.verified [ true ↦ r.verified_count - 1 | false ↦ r.verified_count ]

-- The counters as the code lowers them, one after the other.
abbrev pub counted_down : ContributorRecord → Registry → Registry
counted_down c r =
    if c.verified
    then set_verified_count (r.verified_count - 1) (set_count (r.count - 1) r)
    else set_count (r.count - 1) r

pub counted_down-withdraw :
    (u : Username) (c : ContributorRecord) (r : Registry)
    → counted_down c (remove_from_index u (erase_record u r)) ≡ withdraw u (counter_without c r) r
unfolding withdraw remove_from_index erase_record
counted_down-withdraw u c r = ground arith

pub counted_down_gone :
    (u : Username) (c : ContributorRecord) (r : Registry)
    → get_record (counted_down c (remove_from_index u (erase_record u r))) u ≡ none
unfolding get_record erase_record remove_from_index
counted_down_gone u c r = ground (arith, bytes_eq_refl (canon u))

take_out-counted_down :
    (P : Registry → Type 0) (caller : Address) (u : Username) (c : ContributorRecord) (t : ℕ)
    (env : Env) (s : State)
    → P (counted_down c (remove_from_index u (erase_record u s.registry)))
    → Returns (λ s'. P s'.registry) (take_out caller u c t) env s
unfolding take_out
take_out-counted_down P caller u c t env s h = search (writes) depth 40

remove-Returns :
    (Q : State → Type 0) (caller : Address) (u : Username) (env : Env) (s : State)
    → ((c : ContributorRecord)
        → get_record s.registry u ≡ some c
        → Returns Q (take_out caller u c env.timestamp) env s)
    → Returns Q (remove caller u) env s
unfolding remove
remove-Returns Q caller u env s h = search (steps, checks, step_refuse) depth 40

pub withdrawn-Coherent :
    (u : Username) (c : ContributorRecord) (r : Registry)
    → Coherent r
    → get_record r u ≡ some c
    → Coherent (withdraw u (counter_without c r) r)
withdrawn-Coherent u c r h e = withdraw-Coherent u c _ r h e (ground (arith, share-le u c r h e))

pub remove-Coherent :
    (caller : Address) (u : Username) (env : Env) (s : State)
    → Coherent s.registry
    → Coherent (invoke (remove caller u) env s).registry
unfolding invoke
remove-Coherent caller u env s h =
    after_invoke (λ s'. Coherent s'.registry) (remove caller u) env s h
      (remove-Returns _ caller u env s λ c e.
        take_out-counted_down Coherent caller u c env.timestamp env s
          (rw (counted_down-withdraw u c s.registry) (withdrawn-Coherent u c s.registry h e)))
