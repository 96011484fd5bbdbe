-- ===== src/Contract/Challenge.antt =====
-- Ownership challenges (src/lib.rs:4432): start, cancellation, completion after the delay.
pub mod Effect
pub mod Completes
use trustbridge_contract.Base.{
  ℕ, Bool, true, false, not, Option, none, some, ⊤, ◌==◌, if◌then◌else◌, ltb, saturating_add_u64,
}
use trustbridge_contract.Error.{ContractError}
use trustbridge_contract.Username.{Username}
use trustbridge_contract.Types.{Address, ContributorRecord, ChallengeRecord}
use trustbridge_contract.Types.Event.{Event}
use trustbridge_contract.Types.State.{State, Names}
use trustbridge_contract.Registry.{get_record, has_record, remove_from_index, canon}
use trustbridge_contract.Names.{has_challenge, set_challenge, remove_challenge}
use trustbridge_contract.Contract.Monad.{
  Env, M, pure, ask, gets, ok_or, ◌>>=◌, ◌>>◌, reject_if, require_auth, on_registry, on_names,
}
use trustbridge_contract.Contract.Guards.{
  require_initialized, require_not_paused, get_admin, publish, refuse_if, text, event_domain,
}
use trustbridge_contract.Contract.Remove.{remove_record, count_down}

-- `DEFAULT_CHALLENGE_DELAY_SECS`: 48 hours.
abbrev pub challenge_delay_secs : ℕ
challenge_delay_secs = 172800

unfoldable pub get_challenge : Names → Username → Option ChallengeRecord
get_challenge n u = n.challenges (canon u)

unfoldable pub start_challenge : Address → Username → M ⊤
start_challenge caller u = do
  require_initialized
  require_not_paused
  require_auth caller
  admin ← get_admin
  refuse_if (not (caller == admin)) caller (text "start_challenge")
  env ← ask (λ e. e)
  s ← gets (λ s. s)
  reject_if (not (has_record s.registry u)) ContractError.not_registered
  reject_if (has_challenge s.names u) ContractError.challenge_already_active
  let resolve_after = saturating_add_u64 env.timestamp challenge_delay_secs
  on_names (
      set_challenge u (record {
        challenged_by = caller;
        started_at = env.timestamp;
        resolve_after = resolve_after;
      }))
  d ← event_domain
  publish (Event.challenge_started u caller resolve_after env.timestamp d)

unfoldable pub cancel_challenge : Address → Username → M ⊤
cancel_challenge caller u = do
  require_initialized
  require_not_paused
  require_auth caller
  admin ← get_admin
  refuse_if (not (caller == admin)) caller (text "cancel_challenge")
  env ← ask (λ e. e)
  s ← gets (λ s. s)
  reject_if (not (has_challenge s.names u)) ContractError.no_challenge_active
  on_names (remove_challenge u)
  d ← event_domain
  publish (Event.challenge_cancelled u caller env.timestamp d)

unfoldable pub dismiss : Address → Username → ContributorRecord → ℕ → M ⊤
unfolding remove_record count_down
dismiss caller u c timestamp = do
  remove_record u
  on_registry (remove_from_index u)
  count_down c
  on_names (remove_challenge u)
  d ← event_domain
  publish (Event.removed u c.stellar_address timestamp d)
  d' ← event_domain
  publish (Event.challenge_completed u caller timestamp d')

unfoldable pub complete_challenge : Address → Username → M ⊤
complete_challenge caller u = do
  require_initialized
  require_not_paused
  require_auth caller
  admin ← get_admin
  refuse_if (not (caller == admin)) caller (text "complete_challenge")
  env ← ask (λ e. e)
  s ← gets (λ s. s)
  ch ← ok_or (get_challenge s.names u) ContractError.no_challenge_active
  reject_if (ltb env.timestamp ch.resolve_after) ContractError.challenge_not_resolvable
  c ← ok_or (get_record s.registry u) ContractError.not_registered
  dismiss caller u c env.timestamp
