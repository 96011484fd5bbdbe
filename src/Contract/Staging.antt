-- ===== src/Contract/Staging.antt =====
-- The staged slot (src/staged_wasm.rs) and its entry points (src/lib.rs:1572), and the check that
-- the upgraders pass.
use trustbridge_contract.Base.{
  ℕ, Bool, false, not, ◌&&◌, Option, none, some, ⊤, List, ◌==◌, if◌then◌else◌, is_some,
}
use trustbridge_contract.Error.{ContractError}
use trustbridge_contract.Types.{Address, Hash, StagedWasm, Role}
use trustbridge_contract.Types.Event.{Event}
use trustbridge_contract.Types.State.{Governance}
use trustbridge_contract.Contract.Monad.{
  M, pure, ask, gets, ◌>>=◌, ◌>>◌, reject_if, require_auth, on_governance,
}
use trustbridge_contract.Contract.Guards.{
  require_initialized, require_not_paused, get_admin, publish, refuse_if, text, holds_role,
  require_role_not_expired,
}

-- The admin, or the holder of an unexpired upgrader role.
unfoldable pub require_upgrader : Address → List ℕ → M ⊤
require_upgrader caller operation = do
  admin ← get_admin
  if caller == admin then pure tt else require_role_not_expired caller
  env ← ask (λ e. e)
  s ← gets (λ s. s)
  refuse_if (not (caller == admin) && not (holds_role env s.access caller Role.upgrader)) caller
      operation

unfoldable pub stage_wasm : Address → Hash → M ⊤
stage_wasm caller wasm_hash = do
  require_initialized
  require_not_paused
  require_auth caller
  require_upgrader caller (text "stage_wasm")
  env ← ask (λ e. e)
  on_governance (λ g. record g {
    staged = some (record { wasm_hash = wasm_hash; staged_by = caller; staged_at = env.timestamp });
  })
  publish (Event.wasm_staged wasm_hash caller env.timestamp)

-- `clear_staged_wasm`.
abbrev pub clear_staged_wasm : Governance → Governance
clear_staged_wasm g = record g { staged = none }

unfoldable pub unstage : Option StagedWasm → Address → ℕ → M ⊤
unstage none caller timestamp = pure tt
unstage (some e) caller timestamp = do
  on_governance clear_staged_wasm
  publish (Event.staged_wasm_cleared e.wasm_hash caller timestamp)

unfoldable pub clear_staged : Address → M ⊤
clear_staged caller = do
  require_initialized
  require_auth caller
  admin ← get_admin
  refuse_if (not (caller == admin)) caller (text "clear_staged")
  env ← ask (λ e. e)
  s ← gets (λ s. s)
  unstage s.governance.staged caller env.timestamp

-- Another hash is staged.
unfoldable pub stages_other : Governance → Hash → Bool
stages_other g h = elim g.staged [ none ↦ false | some e ↦ not (e.wasm_hash == h) ]

-- `require_staged_wasm_consistent`, with `require_attestation_if_required`.
unfoldable pub require_staged_wasm_consistent : Hash → M ⊤
require_staged_wasm_consistent h = do
  s ← gets (λ s. s)
  reject_if (stages_other s.governance h) ContractError.staged_wasm_mismatch
  reject_if (s.governance.attestation_required && not (is_some s.governance.attestation))
      ContractError.attestation_required
