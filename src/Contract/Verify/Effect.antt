-- ===== src/Contract/Verify/Effect.antt =====
-- What verification and revocation do to the registry.
use trustbridge_contract.Base.{
  ℕ, ◌-◌, ◌≡◌, ◌≤◌, refl, Option, some, arith, true, false, Bool, Bool-cases, inl, inr, not, ⊤,
  saturating_add_u32, u32_max,
}
use trustbridge_contract.Username.{Username}
use trustbridge_contract.Types.{Address, ContributorRecord}
use trustbridge_contract.Types.State.{State, Registry, Access}
use trustbridge_contract.Registry.{
  get_record, set_record, set_verified_count, bump_ever_verified_count,
}
use trustbridge_contract.Registry.Coherent.{
  Coherent, rewrite, rewrite-Coherent, share-le, room_for_one,
}
use trustbridge_contract.Contract.Monad.{Env, M, ◌>>=◌, invoke}
use trustbridge_contract.Contract.Rules.{Returns, steps, after_invoke, reading}
use trustbridge_contract.Contract.Writes.{writes}
use trustbridge_contract.Contract.Guards.Same.{checks, step_refuse}
use trustbridge_contract.Contract.Verify.{
  charge, count_up, mark_verified, verify, take_back, revoke_verification, set_bot_status,
}

-- A charge writes to the rates alone.
module _ {B : Type 0} {Q : State → Type 0} {env : Env} {s : State} where
  pub step_charge :
      (b : Bool) (a : Address) (n : ℕ) (f : ⊤ → M B)
      → ((x : Access) → Returns Q (f tt) env (record s { access = x }))
      → Returns Q (charge b a n >>= f) env s
  unfolding charge
  step_charge true a n f h = search (writes, h s.access)
  step_charge false a n f h = search (writes, steps) depth 20

pub ever_set-Coherent :
    (o : Option ℕ) (r : Registry) → Coherent r → Coherent (record r { ever_verified_count = o })
ever_set-Coherent o r h = record {
  indexed = h.indexed;
  distinct = h.distinct;
  canonical = h.canonical;
  chunked = h.chunked;
  counted = h.counted;
  verified_counted = h.verified_counted;
}

ever_Coherent : (r : Registry) → Coherent r → Coherent (bump_ever_verified_count r)
unfolding bump_ever_verified_count
ever_Coherent r h = ever_set-Coherent _ r h

pub marked-Coherent :
    (u : Username) (c : ContributorRecord) (r : Registry)
    → Coherent r
    → r.count ≤ u32_max
    → get_record r u ≡ some c
    → Coherent (count_up c (set_record u (record c { verified = true }) r))
unfolding set_record rewrite
marked-Coherent u c r h fits e = elim (Bool-cases c.verified) [
  | inl already ↦
      rw already
        (rewrite-Coherent u c (record c { verified = true }) r.verified_count r h e (ground arith))
  | inr fresh ↦ rw fresh (
      ever_Coherent _ (
        rewrite-Coherent u c (record c { verified = true }) (saturating_add_u32 r.verified_count 1)
          r h e (ground (arith, room_for_one u c r h e))))
]

pub mark_verified-Coherent :
    (u : Username) (c : ContributorRecord) (actor : Address) (env : Env) (s : State)
    → Coherent (count_up c (set_record u (record c { verified = true }) s.registry))
    → Returns (λ s'. Coherent s'.registry) (mark_verified u c actor) env s
unfolding mark_verified
mark_verified-Coherent u c actor env s h = search (writes, steps) depth 40

verify-Returns :
    (Q : State → Type 0) (caller : Address) (u : Username) (env : Env) (s : State)
    → ((c : ContributorRecord) (x : Access)
        → get_record s.registry u ≡ some c
        → Returns Q (mark_verified u c caller) env (record s { access = x }))
    → Returns Q (verify caller u) env s
unfolding verify
verify-Returns Q caller u env s h =
    search (steps, checks, reading, step_refuse, step_charge) depth 40

pub verify-Coherent :
    (caller : Address) (u : Username) (env : Env) (s : State)
    → Coherent s.registry
    → s.registry.count ≤ u32_max
    → Coherent (invoke (verify caller u) env s).registry
unfolding invoke
verify-Coherent caller u env s h fits =
    after_invoke (λ s'. Coherent s'.registry) (verify caller u) env s h
      (verify-Returns _ caller u env s
        λ c x e. mark_verified-Coherent u c caller env _ (marked-Coherent u c s.registry h fits e))

revoked-Coherent :
    (u : Username) (c : ContributorRecord) (r : Registry)
    → Coherent r
    → get_record r u ≡ some c
    → not c.verified ≡ false
    → Coherent
        (set_verified_count (r.verified_count - 1) (set_record u (record c { verified = false }) r))
unfolding set_record rewrite
revoked-Coherent u c r h e v =
    rewrite-Coherent u c (record c { verified = false }) (r.verified_count - 1) r h e
      (ground (arith, share-le u c r h e))

take_back-registry :
    (P : Registry → Type 0) (caller : Address) (u : Username) (c : ContributorRecord)
    (reason now : ℕ) (env : Env) (s : State)
    → P (
        set_verified_count
          (s.registry.verified_count - 1)
          (set_record u (record c { verified = false }) s.registry))
    → Returns (λ s'. P s'.registry) (take_back caller u c reason now) env s
unfolding take_back set_record
take_back-registry P caller u c reason now env s h = search (writes) depth 40

revoke-Returns :
    (Q : State → Type 0) (caller : Address) (u : Username) (reason : ℕ) (env : Env) (s : State)
    → ((c : ContributorRecord) (x : Access)
        → get_record s.registry u ≡ some c
        → not c.verified ≡ false
        → Returns Q (take_back caller u c reason env.timestamp) env (record s { access = x }))
    → Returns Q (revoke_verification caller u reason) env s
unfolding revoke_verification
revoke-Returns Q caller u reason env s h =
    search (steps, checks, reading, step_refuse, step_charge) depth 40

pub revoke_verification-Coherent :
    (caller : Address) (u : Username) (reason : ℕ) (env : Env) (s : State)
    → Coherent s.registry
    → Coherent (invoke (revoke_verification caller u reason) env s).registry
unfolding invoke set_record
revoke_verification-Coherent caller u reason env s h =
    after_invoke (λ s'. Coherent s'.registry) (revoke_verification caller u reason) env s h
      (revoke-Returns _ caller u reason env s λ c x e v.
        take_back-registry Coherent caller u c reason env.timestamp env _
          (revoked-Coherent u c s.registry h e v))

set_bot-Returns :
    (P : Registry → Type 0) (caller : Address) (u : Username) (b : Bool) (env : Env) (s : State)
    → ((c : ContributorRecord)
        → get_record s.registry u ≡ some c
        → P (set_record u (record c { is_bot = b }) s.registry))
    → Returns (λ s'. P s'.registry) (set_bot_status caller u b) env s
unfolding set_bot_status
set_bot-Returns P caller u b env s h = search (steps, checks, step_refuse, writes) depth 60

pub set_bot_status-Coherent :
    (caller : Address) (u : Username) (b : Bool) (env : Env) (s : State)
    → Coherent s.registry
    → Coherent (invoke (set_bot_status caller u b) env s).registry
unfolding invoke set_record rewrite
set_bot_status-Coherent caller u b env s h =
    after_invoke (λ s'. Coherent s'.registry) (set_bot_status caller u b) env s h
      (set_bot-Returns Coherent caller u b env s λ c e.
        rewrite-Coherent u c (record c { is_bot = b }) s.registry.verified_count s.registry h e
          refl)
