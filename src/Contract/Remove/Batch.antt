-- ===== src/Contract/Remove/Batch.antt =====
-- The loop of `apply_batch_remove`, whose counters are written once, at its end.
use trustbridge_contract.Base.{
  ℕ, ◌-◌, ◌+◌, ◌≡◌, ◌≤◌, refl, Option, none, some, arith, if◌then◌else◌, List, [], ◌∷◌, u32_max,
  ltb, ap, ◌∙◌, is_some,
}
use trustbridge_contract.Username.{Username}
use trustbridge_contract.NameList.{length-without}
use trustbridge_contract.Types.{Address, ContributorRecord}
use trustbridge_contract.Types.State.{State, Registry}
use trustbridge_contract.Registry.{
  get_record, erase_record, remove_from_index, set_count, set_verified_count, canon,
}
use trustbridge_contract.Registry.Verified.{one_if_verified}
use trustbridge_contract.Registry.Coherent.{Coherent, withdraw, share-le, verified-le}
use trustbridge_contract.Contract.Monad.{Env, M, ◌>>=◌, invoke}
use trustbridge_contract.Contract.Rules.{Returns, steps, after_invoke, step_ask, step_gets}
use trustbridge_contract.Contract.Writes.{writes, write_nested, at_end, last_pure}
use trustbridge_contract.Contract.Guards.Same.{checks, step_refuse}
use trustbridge_contract.Contract.Remove.{
  BatchSummary, Tally, tally_up, zero_tally, remove_one, remove_each, apply_batch_remove,
  batch_remove, settle_counts,
}
use trustbridge_contract.Contract.Remove.Effect.{counter_without, withdrawn-Coherent}

-- The registry once the counters are settled.
unfoldable pub settled : Tally → Registry → Registry
settled t r =
    set_verified_count (r.verified_count - t.unverified) (set_count (r.count - t.removed) r)

-- Between two rounds: the settled registry is coherent, and the tallies fit the counters.
pub record Settling (t : Tally) (r : Registry) : Type 0 where
  pub coherent : Coherent (settled t r)
  pub removed_fits : t.removed ≤ r.count
  pub unverified_fits : t.unverified ≤ r.verified_count
  pub counts_fit : (r.count ≤ u32_max) × (r.verified_count ≤ u32_max)

module _ (u : Username) (c : ContributorRecord) (t : Tally) (r : Registry) where
  settled-get_record : get_record (settled t r) u ≡ get_record r u
  unfolding settled get_record
  settled-get_record = refl

  settled_next :
      t.removed + 1 ≤ u32_max
      → t.unverified + one_if_verified (some c) ≤ u32_max
      → settled (tally_up c t) (remove_from_index u (erase_record u r))
        ≡ withdraw u (counter_without c (settled t r)) (settled t r)
  unfolding settled tally_up withdraw remove_from_index erase_record
  settled_next p q = ground arith

  some_left : Coherent (settled t r) → get_record r u ≡ some c → 1 ≤ r.count - t.removed
  unfolding settled get_record
  some_left h e = ground (
    arith,
    h.counted,
    length-without (canon u) r.index h.distinct (h.indexed (canon u) ∙ ap is_some e),
  )

  verified_left :
      Coherent (settled t r)
      → get_record r u ≡ some c
      → one_if_verified (some c) ≤ r.verified_count - t.unverified
  unfolding settled
  verified_left h e = share-le u c (settled t r) h (settled-get_record ∙ e)

  settle_step :
      Settling t r
      → get_record r u ≡ some c
      → Settling (tally_up c t) (remove_from_index u (erase_record u r))
  unfolding tally_up remove_from_index erase_record
  settle_step h e =
      let stored : get_record (settled t r) u ≡ some c = settled-get_record ∙ e in
      let left = some_left h.coherent e in
      let share : one_if_verified (some c) ≤ r.verified_count - t.unverified =
        verified_left h.coherent e in
      record {
        coherent =
            rw (settled_next (omega arith) (omega arith))
              (withdrawn-Coherent u c (settled t r) h.coherent stored);
        removed_fits = omega arith;
        unverified_fits = ground arith;
        counts_fit = h.counts_fit;
      }

module _ {B : Type 0} (Q : State → Type 0) (f : Tally → M B) (env : Env) where
  remove_one-Settling :
      (caller : Address) (u : Username) (o : Option ContributorRecord) (t : Tally) (s : State)
      (now : ℕ)
      → get_record s.registry u ≡ o
      → Settling t s.registry
      → ((t : Tally) (s : State) → Settling t s.registry → Returns Q (f t) env s)
      → Returns Q (remove_one caller u o t now >>= f) env s
  unfolding remove_one
  remove_one-Settling caller u none t s now e h k = search (writes) depth 40
  remove_one-Settling caller u (some c) t s now e h k =
      let h' = settle_step u c t s.registry h e in search (writes) depth 40

remove_each-Settling :
    {B : Type 0} (Q : State → Type 0) (f : Tally → M B) (env : Env) (caller : Address)
    (us : List Username) (t : Tally) (s : State)
    → Settling t s.registry
    → ((t : Tally) (s : State) → Settling t s.registry → Returns Q (f t) env s)
    → Returns Q (remove_each caller us t >>= f) env s
unfolding remove_each
remove_each-Settling Q f env caller [] t s h k = search (writes) depth 40
remove_each-Settling Q f env caller (u ∷ us) t s h k = write_nested _ _ f (
    step_ask _ _ (
      write_nested _ _ f (
        step_gets _ _ (
          write_nested _ _ f (
            remove_one-Settling Q _ env caller u (get_record s.registry u) t s env.timestamp refl h
              λ t' s' h'. remove_each-Settling Q f env caller us t' s' h' k)))))

settled_zero : (r : Registry) → settled zero_tally r ≡ r
unfolding settled
settled_zero r = ground arith

Settling-zero : (r : Registry) → Coherent r → r.count ≤ u32_max → Settling zero_tally r
Settling-zero r h fits = record {
  coherent = rw (settled_zero r) h;
  removed_fits = omega arith;
  unverified_fits = omega arith;
  counts_fit = (fits, omega (arith, verified-le r h));
}

-- The deferred counters, as the code writes them.
abbrev lowered : Tally → Registry → Registry
lowered t r = if ltb 0 t.removed then set_count (r.count - t.removed) r else r

abbrev lowered_both : Tally → Registry → Registry
lowered_both t r =
    if ltb 0 t.unverified
    then set_verified_count ((lowered t r).verified_count - t.unverified) (lowered t r)
    else lowered t r

lowered-settled : (t : Tally) (r : Registry) → lowered_both t r ≡ settled t r
unfolding settled
lowered-settled t r = ground arith

settle_counts-Settling :
    {B : Type 0} (Q : State → Type 0) (env : Env) (m : M B) (t : Tally) (s : State)
    → Settling t s.registry
    → ((s' : State) → Coherent s'.registry → Returns Q m env s')
    → Returns Q (settle_counts t >>= λ _. m) env s
unfolding settle_counts
settle_counts-Settling Q env m t s h k =
    let h' : Coherent (lowered_both t s.registry) = rw (lowered-settled t s.registry) h.coherent in
    search (writes) depth 40

pub apply_batch_remove-Coherent :
    {B : Type 0} (Q : State → Type 0) (f : BatchSummary → M B) (env : Env) (caller : Address)
    (us : List Username) (s : State)
    → Coherent s.registry
    → s.registry.count ≤ u32_max
    → ((b : BatchSummary) (s' : State) → Coherent s'.registry → Returns Q (f b) env s')
    → Returns Q (apply_batch_remove caller us >>= f) env s
unfolding apply_batch_remove
apply_batch_remove-Coherent Q f env caller us s h fits k = write_nested _ _ f (
    remove_each-Settling Q _ env caller us zero_tally s (Settling-zero s.registry h fits) λ t s' h'.
      write_nested _ _ f
        (settle_counts-Settling Q env _ t s' h' λ s'' h''. search (writes) depth 20))

batch_remove-Returns :
    (Q : State → Type 0) (env : Env) (caller : Address) (us : List Username) (s : State)
    → Returns Q (apply_batch_remove caller us) env s
    → Returns Q (batch_remove caller us) env s
unfolding batch_remove
batch_remove-Returns Q env caller us s h = search (steps, checks, step_refuse) depth 40

pub batch_remove-Coherent :
    (caller : Address) (us : List Username) (env : Env) (s : State)
    → Coherent s.registry
    → s.registry.count ≤ u32_max
    → Coherent (invoke (batch_remove caller us) env s).registry
unfolding invoke
batch_remove-Coherent caller us env s h fits =
    after_invoke (λ s'. Coherent s'.registry) (batch_remove caller us) env s h
      (batch_remove-Returns _ env caller us s (
        at_end _ _ env s
          (apply_batch_remove-Coherent _ _ env caller us s h fits λ b s' h'. last_pure b h')))
