-- ===== src/Contract/Register/Guarded.antt =====
-- What a registration that returns was checked for.
use trustbridge_contract.Base.{
  ◌≡◌, ◌⊎◌, Bool, true, false, not, ◌&&◌, ◌==◌, Option, none, some, List, arith, ltb, ⊤, inl, inr,
  Bool-cases, ==_iff, if◌then◌else◌,
}
use trustbridge_contract.Username.{Username, is_valid_github_username}
use trustbridge_contract.Types.{Address, ContributorRecord}
use trustbridge_contract.Types.State.{State}
use trustbridge_contract.Registry.{get_record}
use trustbridge_contract.Names.{is_reserved, has_challenge, is_in_cooldown}
use trustbridge_contract.Contract.Monad.{Env, M, pure, require_auth, ◌>>=◌, actions}
use trustbridge_contract.Contract.Rules.{OnOk, Returns, Returns-OnOk, always, steps, end}
use trustbridge_contract.Contract.Guards.Same.{checks}
use trustbridge_contract.Contract.Register.{register, commit, require_old_holder, moves}
use trustbridge_contract.Contract.Register.Effect.{check_fallbacks-Reads}

-- The holder of the name, if any, is the new address or has authorized the call.
abbrev pub HolderAgrees : Option ContributorRecord → Address → Env → Type 0
HolderAgrees none a env = ⊤
HolderAgrees (some old) a env =
    (old.stellar_address ≡ a) ⊎ (env.authorized old.stellar_address ≡ true)

same_or_authorized :
    {B : Type 0} (Q : State → Type 0) (old a : Address) (env : Env) (s : State) (f : ⊤ → M B)
    → ((old ≡ a) ⊎ (env.authorized old ≡ true) → Returns Q (f tt) env s)
    → OnOk Q (((if old == a then pure tt else require_auth old) >>= f) env s)
unfolding actions
same_or_authorized Q old a env s f h = elim (Bool-cases (old == a)) [
  | inl same ↦ rw same (Returns-OnOk (h (inl ((==_iff old a).0 same))))
  | inr other ↦ elim (Bool-cases (env.authorized old)) [
    | inl agrees ↦ rw (other, agrees) (Returns-OnOk (h (inr agrees)))
    | inr refuses ↦ rw (other, refuses) tt
  ]
]

holder_OnOk :
    {B : Type 0} (Q : State → Type 0) (o : Option ContributorRecord) (a : Address) (env : Env)
    (s : State) (f : ⊤ → M B)
    → (HolderAgrees o a env → Returns Q (f tt) env s)
    → OnOk Q ((require_old_holder o a >>= f) env s)
unfolding require_old_holder actions
holder_OnOk Q none a env s f h = Returns-OnOk (h tt)
holder_OnOk Q (some old) a env s f h = same_or_authorized Q old.stellar_address a env s f h

module _ {B : Type 0} {Q : State → Type 0} {env : Env} {s : State} where
  step_holder :
      (o : Option ContributorRecord) (a : Address) (f : ⊤ → M B)
      → (HolderAgrees o a env → Returns Q (f tt) env s)
      → Returns Q (require_old_holder o a >>= f) env s
  step_holder o a f h = end (holder_OnOk Q o a env s f h)

-- The name is valid, free to take, and everybody concerned has authorized the call.
pub record Guarded (u : Username) (a : Address) (env : Env) (s : State) : Type 0 where
  pub valid : is_valid_github_username u ≡ true
  pub unreserved : is_reserved s.names u ≡ false
  pub unchallenged : has_challenge s.names u ≡ false
  pub authorized : env.authorized a ≡ true
  pub holder_agrees : HolderAgrees (get_record s.registry u) a env
  pub rested : is_in_cooldown env.timestamp s.governance.cooldown s.names u ≡ false
  pub no_bypass : (moves (get_record s.registry u) a && ltb 0 s.names.rotation_delay) ≡ false

module _ (Q : State → Type 0) (u : Username) (a : Address) (fs : List Address) (env : Env)
    (s : State) where
  register_checked :
      (not (is_valid_github_username u) ≡ false
        → is_reserved s.names u ≡ false
        → has_challenge s.names u ≡ false
        → env.authorized a ≡ true
        → HolderAgrees (get_record s.registry u) a env
        → is_in_cooldown env.timestamp s.governance.cooldown s.names u ≡ false
        → (moves (get_record s.registry u) a && ltb 0 s.names.rotation_delay) ≡ false
        → Returns Q (commit u (get_record s.registry u) a none env.timestamp) env s)
      → Returns Q (register u a fs) env s
  unfolding register
  register_checked h = search (step_holder, steps, checks, check_fallbacks-Reads) depth 60

not-false : (b : Bool) → not b ≡ false → b ≡ true
not-false b h = ground arith

-- When `register` returns, the name was valid, not reserved and not challenged, the address had
-- authorized the call, the address that held the name, if any, was the same or had authorized it
-- too, the name was out of its cooldown, and the address did not change under a rotation delay.
pub register-Guarded :
    (u : Username) (a : Address) (fs : List Address) (env : Env) (s : State)
    → OnOk (λ s'. Guarded u a env s) (register u a fs env s)
register-Guarded u a fs env s = Returns-OnOk (
    register_checked _ u a fs env s λ v r c au ha co nb.
      always (Guarded u a env s) (commit u (get_record s.registry u) a none env.timestamp) env s
        (record {
          valid = not-false _ v;
          unreserved = r;
          unchallenged = c;
          authorized = au;
          holder_agrees = ha;
          rested = co;
          no_bypass = nb;
        }))
