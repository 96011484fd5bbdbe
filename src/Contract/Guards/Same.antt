-- ===== src/Contract/Guards/Same.antt =====
-- The checks that every entry point begins with leave the state alone.
use trustbridge_contract.Base.{ℕ, List, ⊤, ◌≡◌, refl, Bool, true, false, arith, some}
use trustbridge_contract.Types.{Address}
use trustbridge_contract.Types.State.{State}
use trustbridge_contract.Contract.Monad.{Env, M, ok, ◌>>=◌, actions}
use trustbridge_contract.Contract.Rules.{Reads, reads, step-Reads, OnOk, Returns, Returns-OnOk, end}
use trustbridge_contract.Contract.Guards.{
  require_initialized, require_not_paused, get_admin, require_role_not_expired, refuse_if,
  record_unauthorized_attempt, push_audit_entry,
}

pub require_initialized-Reads : Reads require_initialized
unfolding require_initialized actions
require_initialized-Reads = reads λ env s. ground arith

pub require_not_paused-Reads : Reads require_not_paused
unfolding require_not_paused actions
require_not_paused-Reads = reads λ env s. ground arith

pub get_admin-Reads : Reads get_admin
unfolding get_admin actions
get_admin-Reads = reads λ env s. ground arith

pub require_role_not_expired-Reads : (a : Address) → Reads (require_role_not_expired a)
unfolding require_role_not_expired actions
require_role_not_expired-Reads a = reads λ env s. ground arith

get_admin_value :
    (env : Env) (s : State) (a : Address) → (get_admin env s).0 ≡ ok a → s.control.admin ≡ some a
unfolding get_admin require_initialized actions
get_admin_value env s a h = ground arith

-- The admin that a caller is compared with is the stored one.
module _ {B : Type 0} {Q : State → Type 0} {env : Env} {s : State} where
  pub step_admin :
      (f : Address → M B)
      → ((a : Address) → s.control.admin ≡ some a → Returns Q (f a) env s)
      → Returns Q (get_admin >>= f) env s
  step_admin f h = step-Reads get_admin f get_admin-Reads λ a p. h a (get_admin_value env s a p)

pub ruleset checks = (
  step_admin, require_initialized-Reads, require_not_paused-Reads, get_admin-Reads,
  require_role_not_expired-Reads,
)

-- A refusal never returns, whatever the audit log does.
module _ {B : Type 0} {Q : State → Type 0} {env : Env} {s : State} where
  refuse_OnOk :
      (b : Bool) (a : Address) (t : List ℕ) (f : ⊤ → M B)
      → (b ≡ false → Returns Q (f tt) env s)
      → OnOk Q ((refuse_if b a t >>= f) env s)
  unfolding refuse_if actions record_unauthorized_attempt push_audit_entry
  refuse_OnOk true a t f h = ground arith
  refuse_OnOk false a t f h = Returns-OnOk (h refl)

  pub step_refuse :
      (b : Bool) (a : Address) (t : List ℕ) (f : ⊤ → M B)
      → (b ≡ false → Returns Q (f tt) env s)
      → Returns Q (refuse_if b a t >>= f) env s
  step_refuse b a t f h = end (refuse_OnOk b a t f h)
