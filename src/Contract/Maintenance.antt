-- ===== src/Contract/Maintenance.antt =====
-- The entry points that compact the chunked index and repair the counters, and those of the
-- reserved names (src/lib.rs:4676).
use trustbridge_contract.Base.{ℕ, Bool, not, ⊤, List, [], ◌∷◌, ◌++◌, length, leb, if◌then◌else◌}
use trustbridge_contract.Error.{ContractError}
use trustbridge_contract.Username.{Username, is_valid_github_username, eq_ignore_ascii_case}
use trustbridge_contract.Types.{RepairReport}
use trustbridge_contract.Registry
use trustbridge_contract.Names.{is_reserved, max_reserved, listed}
use trustbridge_contract.Contract.Monad.{
  M, pure, gets, ◌>>=◌, ◌>>◌, reject_if, require_auth, on_registry, on_names,
}
use trustbridge_contract.Contract.Guards.{require_initialized, get_admin}

unfoldable pub compact_index : M ℕ
compact_index = do
  require_initialized
  admin ← get_admin
  require_auth admin
  on_registry Registry.compact_chunked_index
  gets (λ s. s.registry.chunk_count)

unfoldable pub repair_index : Bool → M RepairReport
repair_index apply = do
  require_initialized
  admin ← get_admin
  require_auth admin
  s ← gets (λ s. s)
  on_registry (λ r. (Registry.repair_index apply r).1)
  pure (Registry.repair_index apply s.registry).0

-- `add_to_reserved`, and the loop of `remove_from_reserved`.
unfoldable pub add_reserved : Username → M ⊤
add_reserved u = do
  require_initialized
  admin ← get_admin
  require_auth admin
  reject_if (not (is_valid_github_username u)) ContractError.invalid_username
  s ← gets (λ s. s)
  reject_if (is_reserved s.names u) ContractError.already_reserved
  reject_if (leb max_reserved (length s.names.reserved)) ContractError.reserved_list_full
  on_names (λ n. record n { reserved = n.reserved ++ u ∷ [] })

unfoldable pub unlisted : Username → List Username → List Username
unlisted u [] = []
unlisted u (e ∷ es) = if eq_ignore_ascii_case e u then unlisted u es else e ∷ unlisted u es

unfoldable pub remove_reserved : Username → M ⊤
remove_reserved u = do
  require_initialized
  admin ← get_admin
  require_auth admin
  s ← gets (λ s. s)
  reject_if (not (listed u s.names.reserved)) ContractError.not_reserved
  on_names (λ n. record n { reserved = unlisted u s.names.reserved })
