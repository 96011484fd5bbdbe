-- ===== src/Contract/Verify/Batch.antt =====
-- The loop of `batch_verify`, whose verified counter is written once, at its end.
use trustbridge_contract.Base.{
  ◌+◌, ◌≡◌, ◌≤◌, refl, Option, none, some, arith, true, false, if◌then◌else◌, List, [], ◌∷◌,
  u32_max, Bool,
}
use trustbridge_contract.Username.{Username}
use trustbridge_contract.Types.{Address, ContributorRecord}
use trustbridge_contract.Types.State.{State, Registry, Access}
use trustbridge_contract.Registry.{
  get_record, set_record, set_verified_count, bump_ever_verified_count,
}
use trustbridge_contract.Registry.Coherent.{
  Coherent, rewrite, rewrite-Coherent, room_for_one, verified-le,
}
use trustbridge_contract.Contract.Monad.{Env, M, pure, ◌>>=◌, invoke}
use trustbridge_contract.Contract.Rules.{Returns, steps, after_invoke, step_gets, step_ask, reading}
use trustbridge_contract.Contract.Writes.{writes, write_nested}
use trustbridge_contract.Contract.Guards.{is_zero_address}
use trustbridge_contract.Contract.Guards.Same.{checks}
use trustbridge_contract.Contract.Verify.{
  Verified, verified_tally, verify_ever, verify_one, verify_each, count_new, batch_verify, collect,
  no_verified, count_all, verify_write,
}
use trustbridge_contract.Contract.Verify.Effect.{step_charge, ever_set-Coherent}

-- The registry once the new verifications are counted.
unfoldable pub counted_new : Verified → Registry → Registry
counted_new t r = set_verified_count (r.verified_count + t.newly_verified) r

pub record Marking (t : Verified) (r : Registry) : Type 0 where
  pub coherent : Coherent (counted_new t r)
  pub count_fits : r.count ≤ u32_max

ever_moves :
    (b : Bool) (t : Verified) (r : Registry)
    → Coherent (counted_new t r)
    → Coherent (counted_new t (if b then r else bump_ever_verified_count r))
unfolding counted_new bump_ever_verified_count
ever_moves true t r h = h
ever_moves false t r h = ever_set-Coherent _ (counted_new t r) h

module _ (u : Username) (c : ContributorRecord) (t : Verified) (r : Registry) where
  abbrev marked : Registry
  marked = set_record u (record c { verified = true }) r

  marked-Coherent :
      Marking t r → get_record r u ≡ some c → Coherent (counted_new (verified_tally c t) marked)
  unfolding counted_new set_record rewrite get_record
  marked-Coherent h e =
      rewrite-Coherent u c (record c { verified = true }) _ (counted_new t r) h.coherent e
        (ground (arith, room_for_one u c (counted_new t r) h.coherent e, h.count_fits))

  ever_count : (verify_ever c marked).count ≡ r.count
  unfolding bump_ever_verified_count set_record
  ever_count = ground arith

  mark_step :
      Marking t r → get_record r u ≡ some c → Marking (verified_tally c t) (verify_ever c marked)
  mark_step h e = record {
    coherent = ever_moves c.verified _ marked (marked-Coherent h e);
    count_fits = omega (arith, ever_count, h.count_fits);
  }

module _ {B : Type 0} (Q : State → Type 0) (env : Env) where
  marks_on :
      (caller : Address) (u : Username) (c : ContributorRecord) (b : Bool) (f : Verified → M B)
      (t : Verified) (s : State)
      → (Marking t s.registry
          × Marking
              (verified_tally c t)
              (verify_ever c (set_record u (record c { verified = true }) s.registry)))
      → ((t : Verified) (s : State) → Marking t s.registry → Returns Q (f t) env s)
      → Returns Q
          ((elim b [ true ↦ pure t | false ↦ verify_write caller u c t env.timestamp ]) >>= f)
          env
          s
  unfolding verify_write
  marks_on caller u c true f t s h k = search (writes) depth 40
  marks_on caller u c false f t s h k = search (writes) depth 40

  verify_one-Marking :
      (caller : Address) (u : Username) (o : Option ContributorRecord) (f : Verified → M B)
      (t : Verified) (s : State)
      → get_record s.registry u ≡ o
      → Marking t s.registry
      → ((t : Verified) (s : State) → Marking t s.registry → Returns Q (f t) env s)
      → Returns Q (verify_one caller u o t >>= f) env s
  unfolding verify_one
  verify_one-Marking caller u none f t s e h k = search (writes) depth 40
  verify_one-Marking caller u (some c) f t s e h k = write_nested _ _ f (
      step_ask _ _ (
        marks_on caller u c (is_zero_address env c.stellar_address) f t s
          (h, mark_step u c t s.registry h e) k))

  verify_each-Marking :
      (caller : Address) (us : List Username) (f : Verified → M B) (t : Verified) (s : State)
      → Marking t s.registry
      → ((t : Verified) (s : State) → Marking t s.registry → Returns Q (f t) env s)
      → Returns Q (verify_each caller us t >>= f) env s
  unfolding verify_each
  verify_each-Marking caller [] f t s h k = search (writes) depth 40
  verify_each-Marking caller (u ∷ us) f t s h k = write_nested _ _ f (
      step_gets _ _ (
        write_nested _ _ f (
          verify_one-Marking caller u (get_record s.registry u) _ t s refl h
            λ t' s' h'. verify_each-Marking caller us f t' s' h' k)))

-- The counter written at the end makes the registry coherent again.
count_new-counted_new :
    (t : Verified) (r : Registry) → Marking t r → count_new t r ≡ counted_new t r
unfolding counted_new
count_new-counted_new t r h =
    ground (arith, h.count_fits, fits (verified-le (counted_new t r) h.coherent))
  where
    fits :
        (counted_new t r).verified_count ≤ (counted_new t r).count
        → r.verified_count + t.newly_verified ≤ r.count
    fits p = p

uncounted : (r : Registry) → counted_new no_verified r ≡ r
unfolding counted_new
uncounted r = ground arith

counting :
    (us : List Username) (t : Verified) (env : Env) (s : State)
    → Coherent (count_new t s.registry)
    → Returns (λ s'. Coherent s'.registry) (count_all us t) env s
unfolding count_all
counting us t env s h = search (writes) depth 40

batch_verify-Returns :
    (Q : State → Type 0) (caller : Address) (us : List Username) (env : Env) (s : State)
    → ((x : Access)
        → Returns Q
            (verify_each caller (collect env s us []) no_verified >>= λ t. count_all us t)
            env
            (record s { access = x }))
    → Returns Q (batch_verify caller us) env s
unfolding batch_verify
batch_verify-Returns Q caller us env s h = search (steps, checks, reading, step_charge) depth 40

pub batch_verify-Coherent :
    (caller : Address) (us : List Username) (env : Env) (s : State)
    → Coherent s.registry
    → s.registry.count ≤ u32_max
    → Coherent (invoke (batch_verify caller us) env s).registry
unfolding invoke
batch_verify-Coherent caller us env s h fits =
    after_invoke (λ s'. Coherent s'.registry) (batch_verify caller us) env s h
      (batch_verify-Returns _ caller us env s λ x.
        verify_each-Marking _ env caller (collect env s us []) _ no_verified _
          (record { coherent = rw (uncounted s.registry) h; count_fits = fits })
          λ t s' h'. counting us t env s' (rw (count_new-counted_new t s'.registry h') h'.coherent))
