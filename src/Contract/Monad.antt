-- ===== src/Contract/Monad.antt =====
-- An invocation of the contract on the host. An entry point reads the environment of the call,
-- and returns a value, a `ContractError` or a trap with the state at that point; `invoke` is what
-- the host does with it: it keeps the writes of a call that returns, and discards all others.
use trustbridge_contract.Base.{ℕ, List, Bool, true, false, Option, none, some, ⊤, if◌then◌else◌}
use trustbridge_contract.Error.{ContractError}
use trustbridge_contract.Types.{Address, Hash}
use trustbridge_contract.Types.State.{State, Registry, Names, Access, Control, Governance}

-- What the host tells a call: the ledger's timestamp (u64), sequence (u32) and network, the
-- contract's own address, the address that the all-zero key decodes to, who has authorized the
-- call (`require_auth`), and the hashes of the code that has been uploaded. Three functions of the
-- host stand beside them: the text of an address, the check of a signature, and SHA-256.
pub record Env : Type 0 where
  pub timestamp : ℕ
  pub sequence : ℕ
  pub network_id : Hash
  pub contract_address : Address
  pub zero_address : Address
  pub authorized : Address → Bool
  pub uploaded : Hash → Bool
  pub address_text : Address → List ℕ
  pub ed25519_verify : Hash → List ℕ → List ℕ → Bool
  pub sha256 : List ℕ → List ℕ

pub data Outcome (A : Type 0) : Type 0 where
  ok : A → Outcome A
  err : ContractError → Outcome A
  trap : Outcome A

abbrev pub M : Type 0 → Type 0
M A = Env → State → Outcome A × State

module _ {A : Type 0} where
  unfoldable pub pure : A → M A
  pure a env s = (ok a, s)

  unfoldable pub fail : ContractError → M A
  fail e env s = (err e, s)

  unfoldable pub ask : (Env → A) → M A
  ask f env s = (ok (f env), s)

  unfoldable pub gets : (State → A) → M A
  gets f env s = (ok (f s), s)

  -- `ok_or(..)?`.
  unfoldable pub ok_or : Option A → ContractError → M A
  ok_or (some a) e env s = (ok a, s)
  ok_or none e env s = (err e, s)

-- What follows an action that ended so.
unfoldable pub continue : {A B : Type 0} → (A → M B) → Env → Outcome A × State → Outcome B × State
continue f env (ok a, s) = f a env s
continue f env (err e, s) = (err e, s)
continue f env (trap, s) = (trap, s)

infixl 5 ◌>>=◌ ◌>>◌
unfoldable pub ◌>>=◌ : {A B : Type 0} → M A → (A → M B) → M B
◌>>=◌ m f env s = continue f env (m env s)

abbrev pub ◌>>◌ : {A B : Type 0} → M A → M B → M B
m >> k = m >>= λ _. k

unfoldable pub reject_if : Bool → ContractError → M ⊤
reject_if true e env s = (err e, s)
reject_if false e env s = (ok tt, s)

-- `address.require_auth()`: the host traps when the address has not authorized the call.
unfoldable pub require_auth : Address → M ⊤
require_auth a env s = (if env.authorized a then ok tt else trap, s)

unfoldable pub modify : (State → State) → M ⊤
modify f env s = (ok tt, f s)

abbrev pub on_registry : (Registry → Registry) → M ⊤
on_registry f = modify (λ s. record s { registry = f s.registry })

abbrev pub on_names : (Names → Names) → M ⊤
on_names f = modify (λ s. record s { names = f s.names })

abbrev pub on_access : (Access → Access) → M ⊤
on_access f = modify (λ s. record s { access = f s.access })

abbrev pub on_control : (Control → Control) → M ⊤
on_control f = modify (λ s. record s { control = f s.control })

abbrev pub on_governance : (Governance → Governance) → M ⊤
on_governance f = modify (λ s. record s { governance = f s.governance })

-- All the actions, for an `unfolding` line.
unfoldable pub actions : Unit {0}
unfolding pure fail ask gets ok_or continue ◌>>=◌ reject_if require_auth modify
actions = tt

-- The host's transaction: the writes of a call that does not return `Ok` are rolled back.
abbrev pub settle : {A : Type 0} → State → Outcome A × State → State
settle s (ok _, s') = s'
settle s (err _, s') = s
settle s (trap, s') = s

unfoldable pub invoke : {A : Type 0} → M A → Env → State → State
invoke m env s = settle s (m env s)
