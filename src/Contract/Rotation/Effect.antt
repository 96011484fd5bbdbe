-- ===== src/Contract/Rotation/Effect.antt =====
-- What a rotation does to the registry.
use trustbridge_contract.Base.{
  ℕ, ◌-◌, ◌≡◌, ◌≤◌, refl, none, some, arith, true, false, if◌then◌else◌, ltb, bytes_eq_refl,
}
use trustbridge_contract.Username.{Username}
use trustbridge_contract.Types.{ContributorRecord, PendingRotation}
use trustbridge_contract.Types.State.{State, Registry, Names}
use trustbridge_contract.Registry.{canon, get_record, set_record, set_verified_count}
use trustbridge_contract.Registry.Coherent.{Coherent, rewrite, rewrite-Coherent, share-le}
use trustbridge_contract.Names.{get_pending_rotation, remove_pending_rotation}
use trustbridge_contract.Contract.Monad.{Env, invoke}
use trustbridge_contract.Contract.Rules.{
  OnOk, Returns, end, weaken, Returns-OnOk, steps, after_invoke,
}
use trustbridge_contract.Contract.Writes.{writes}
use trustbridge_contract.Contract.Guards.Same.{checks}
use trustbridge_contract.Contract.Rotation.{rotated, hand_over, execute_address_rotation}

-- The registry after the hand-over, as the code writes it.
abbrev handed : Username → ContributorRecord → PendingRotation → ℕ → Registry → Registry
handed u c p now r =
    set_record u (rotated c p now)
      (if c.verified then set_verified_count (r.verified_count - 1) r else r)

handed-rewrite :
    (u : Username) (c : ContributorRecord) (p : PendingRotation) (now : ℕ) (r : Registry)
    → handed u c p now r
      ≡ rewrite u
          (rotated c p now)
          (if c.verified then r.verified_count - 1 else r.verified_count)
          r
unfolding rewrite set_record
handed-rewrite u c p now r = ground arith

hand_over-handed :
    (P : Registry → Type 0) (u : Username) (c : ContributorRecord) (p : PendingRotation) (now : ℕ)
    (env : Env) (s : State)
    → P (handed u c p now s.registry)
    → Returns (λ s'. P s'.registry) (hand_over u c p now) env s
unfolding hand_over
hand_over-handed P u c p now env s h = search (writes) depth 40

execute-Returns :
    (Q : State → Type 0) (u : Username) (env : Env) (s : State)
    → ((c : ContributorRecord) (p : PendingRotation)
        → get_record s.registry u ≡ some c
        → get_pending_rotation s.names u ≡ some p
        → ltb env.timestamp p.executable_at ≡ false
        → env.authorized p.new_address ≡ true
        → Returns Q (hand_over u c p env.timestamp) env s)
    → Returns Q (execute_address_rotation u) env s
unfolding execute_address_rotation
execute-Returns Q u env s h = search (steps, checks) depth 60

handed-Coherent :
    (u : Username) (c : ContributorRecord) (p : PendingRotation) (now : ℕ) (r : Registry)
    → Coherent r
    → get_record r u ≡ some c
    → Coherent (handed u c p now r)
handed-Coherent u c p now r h e =
    rw (handed-rewrite u c p now r)
      (rewrite-Coherent u c (rotated c p now) _ r h e (ground (arith, share-le u c r h e)))

pub execute_address_rotation-Coherent :
    (u : Username) (env : Env) (s : State)
    → Coherent s.registry
    → Coherent (invoke (execute_address_rotation u) env s).registry
unfolding invoke
execute_address_rotation-Coherent u env s h =
    after_invoke (λ s'. Coherent s'.registry) (execute_address_rotation u) env s h
      (execute-Returns _ u env s λ c p e _ _ _.
        hand_over-handed Coherent u c p env.timestamp env s
          (handed-Coherent u c p env.timestamp s.registry h e))

-- What a rotation that is executed stood on, and what it leaves.
pub record Rotated (u : Username) (env : Env) (s : State) (s' : State) : Type 0 where
  pub before : ContributorRecord
  pub pending : PendingRotation
  pub after : ContributorRecord
  pub stored : get_record s.registry u ≡ some before
  pub waiting : get_pending_rotation s.names u ≡ some pending
  pub delay_over : pending.executable_at ≤ env.timestamp
  pub authorized : env.authorized pending.new_address ≡ true
  pub written : get_record s'.registry u ≡ some after
  pub new_holder : after.stellar_address ≡ pending.new_address
  pub unverified : after.verified ≡ false
  pub settled : get_pending_rotation s'.names u ≡ none

stored_handed :
    (u : Username) (c : ContributorRecord) (p : PendingRotation) (now : ℕ) (r : Registry)
    → get_record (handed u c p now r) u ≡ some (rotated c p now)
unfolding get_record set_record
stored_handed u c p now r = ground (arith, bytes_eq_refl (canon u))

cleared : (u : Username) (n : Names) → get_pending_rotation (remove_pending_rotation u n) u ≡ none
unfolding get_pending_rotation remove_pending_rotation
cleared u n = ground (arith, bytes_eq_refl (canon u))

-- The state at the end of the hand-over.
module _ (u : Username) (c : ContributorRecord) (p : PendingRotation) (env : Env) (s : State) where
  abbrev Handed : State → Type 0
  Handed s' =
      (get_record s'.registry u ≡ some (rotated c p env.timestamp))
      × (get_pending_rotation s'.names u ≡ none)

  hand_over-Handed : Returns Handed (hand_over u c p env.timestamp) env s
  unfolding hand_over
  hand_over-Handed =
      search (writes, stored_handed u c p env.timestamp s.registry, cleared u) depth 40

-- When `execute_address_rotation` returns, the name had a record and a pending rotation whose
-- delay was over and which its new address authorized; afterwards the record of the name is held
-- by the new address and is not verified, and no rotation of the name is pending.
pub execute_address_rotation-Rotated :
    (u : Username) (env : Env) (s : State)
    → OnOk (Rotated u env s) (execute_address_rotation u env s)
execute_address_rotation-Rotated u env s = Returns-OnOk (
    execute-Returns _ u env s λ c p stored waiting over auth. end (
      weaken (Handed u c p env s) (Rotated u env s) (hand_over u c p env.timestamp env s)
        (Returns-OnOk (hand_over-Handed u c p env s))
        λ s' h. record {
          before = c;
          pending = p;
          after = rotated c p env.timestamp;
          stored = stored;
          waiting = waiting;
          delay_over = ground (arith, over);
          authorized = auth;
          written = h.0;
          new_holder = refl;
          unverified = refl;
          settled = h.1;
        }))
