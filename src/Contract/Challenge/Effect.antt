-- ===== src/Contract/Challenge/Effect.antt =====
-- What the completion of a challenge does to the registry.
use trustbridge_contract.Base.{ℕ, ◌≡◌, ◌≤◌, none, some, arith, true, false, ltb, ◌==◌, not}
use trustbridge_contract.Username.{Username}
use trustbridge_contract.Types.{Address, ContributorRecord, ChallengeRecord}
use trustbridge_contract.Types.State.{State, Registry}
use trustbridge_contract.Registry.{get_record, erase_record, remove_from_index}
use trustbridge_contract.Registry.Coherent.{Coherent}
use trustbridge_contract.Contract.Monad.{Env, invoke}
use trustbridge_contract.Contract.Rules.{OnOk, Returns, Returns-OnOk, steps, after_invoke}
use trustbridge_contract.Contract.Writes.{writes}
use trustbridge_contract.Contract.Guards.Same.{checks, step_refuse}
use trustbridge_contract.Contract.Remove.Effect.{
  counted_down, counted_down-withdraw, counted_down_gone, withdrawn-Coherent,
}
use trustbridge_contract.Contract.Challenge.{get_challenge, dismiss, complete_challenge}

dismiss-counted_down :
    (P : Registry → Type 0) (caller : Address) (u : Username) (c : ContributorRecord) (now : ℕ)
    (env : Env) (s : State)
    → P (counted_down c (remove_from_index u (erase_record u s.registry)))
    → Returns (λ s'. P s'.registry) (dismiss caller u c now) env s
unfolding dismiss
dismiss-counted_down P caller u c now env s h = search (writes) depth 40

complete-Returns :
    (Q : State → Type 0) (caller : Address) (u : Username) (env : Env) (s : State)
    → ((admin : Address) (ch : ChallengeRecord) (c : ContributorRecord)
        → s.control.admin ≡ some admin
        → not (caller == admin) ≡ false
        → env.authorized caller ≡ true
        → get_challenge s.names u ≡ some ch
        → ltb env.timestamp ch.resolve_after ≡ false
        → get_record s.registry u ≡ some c
        → Returns Q (dismiss caller u c env.timestamp) env s)
    → Returns Q (complete_challenge caller u) env s
unfolding complete_challenge
complete-Returns Q caller u env s h = search (steps, checks, step_refuse) depth 60

pub complete_challenge-Coherent :
    (caller : Address) (u : Username) (env : Env) (s : State)
    → Coherent s.registry
    → Coherent (invoke (complete_challenge caller u) env s).registry
unfolding invoke
complete_challenge-Coherent caller u env s h =
    after_invoke (λ s'. Coherent s'.registry) (complete_challenge caller u) env s h
      (complete-Returns _ caller u env s λ admin ch c _ _ _ _ _ e.
        dismiss-counted_down Coherent caller u c env.timestamp env s
          (rw (counted_down-withdraw u c s.registry) (withdrawn-Coherent u c s.registry h e)))

-- A completed challenge was one that the admin completes, and whose waiting period is over.
pub record Resolved (caller : Address) (u : Username) (env : Env) (s : State) : Type 0 where
  pub challenge : ChallengeRecord
  pub by_admin : s.control.admin ≡ some caller
  pub authorized : env.authorized caller ≡ true
  pub challenged : get_challenge s.names u ≡ some challenge
  pub delay_over : challenge.resolve_after ≤ env.timestamp

-- When `complete_challenge` returns, the caller was the admin and had authorized it, and a
-- challenge of the name was there whose waiting period was over; afterwards the name has no
-- record.
pub complete_challenge-Resolved :
    (caller : Address) (u : Username) (env : Env) (s : State)
    → OnOk
        (λ s'. Resolved caller u env s × (get_record s'.registry u ≡ none))
        (complete_challenge caller u env s)
complete_challenge-Resolved caller u env s = Returns-OnOk (
    complete-Returns _ caller u env s λ admin ch c stored is_caller auth challenged over e.
      dismiss-counted_down (λ r. Resolved caller u env s × (get_record r u ≡ none)) caller u c
        env.timestamp env s
        (
          record {
            challenge = ch;
            by_admin = ground (arith, stored, is_caller);
            authorized = auth;
            challenged = challenged;
            delay_over = ground (arith, over);
          },
          counted_down_gone u c s.registry,
        ))
