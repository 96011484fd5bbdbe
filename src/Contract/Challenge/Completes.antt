-- ===== src/Contract/Challenge/Completes.antt =====
-- A challenge that is due can be completed.
use trustbridge_contract.Base.{ℕ, ◌≡◌, ◌≤◌, true, some, arith}
use trustbridge_contract.Username.{Username}
use trustbridge_contract.Types.{Address, ContributorRecord, ChallengeRecord, AuditEventType}
use trustbridge_contract.Types.State.{State}
use trustbridge_contract.Registry.{get_record}
use trustbridge_contract.Contract.Monad.{Env, ok, actions}
use trustbridge_contract.Contract.Guards.{
  require_initialized, require_not_paused, get_admin, refuse_if, publish, event_domain,
}
use trustbridge_contract.Contract.Guards.Serves.{Serves}
use trustbridge_contract.Contract.Challenge.{complete_challenge, dismiss, get_challenge}

module _ (admin : Address) (u : Username) (ch : ChallengeRecord) (c : ContributorRecord) (env : Env)
    (s : State) where
  dismiss_returns : (now : ℕ) → (dismiss admin u c now env s).0 ≡ ok tt
  unfolding dismiss actions publish event_domain
  dismiss_returns now = ground arith

  -- The admin, having authorized it, completes a challenge of a registered name whose waiting
  -- period is over: the call returns, where the contract is initialized on this network, not
  -- paused and has room in its audit counters.
  pub complete_challenge-returns :
      Serves AuditEventType.user_removed env s
      → s.control.admin ≡ some admin
      → env.authorized admin ≡ true
      → get_challenge s.names u ≡ some ch
      → ch.resolve_after ≤ env.timestamp
      → get_record s.registry u ≡ some c
      → (complete_challenge admin u env s).0 ≡ ok tt
  unfolding complete_challenge actions require_initialized require_not_paused get_admin refuse_if
  complete_challenge-returns serves is_admin auth challenged due stored = ground (
    arith,
    serves.initialized,
    serves.on_network,
    serves.not_paused,
    dismiss_returns env.timestamp,
  )
