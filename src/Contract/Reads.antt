-- ===== src/Contract/Reads.antt =====
-- The reads of src/lib.rs that compute something: role and verifier questions, pauses, cooldowns,
-- the leaf of an export, and the keeper's call. The keeper's call only extends the life of
-- entries, which is not modelled: what it answers is.
use trustbridge_contract.Base.{
  ℕ, ◌-◌, Bool, false, not, ◌&&◌, ◌||◌, none, some, List, [], ◌∷◌, length, leb, ltb, if◌then◌else◌,
  is_some, saturating_add_u32,
}
use trustbridge_contract.Error.{ContractError}
use trustbridge_contract.Username.{Username, eq_ignore_ascii_case, is_valid_github_username}
use trustbridge_contract.Types.{Address, Role, role_eq}
use trustbridge_contract.Types.State.{State, Registry, Access}
use trustbridge_contract.Registry.{get_record}
use trustbridge_contract.Names.{is_in_cooldown}
use trustbridge_contract.Access.{
  get_allowlist, is_active_verifier, active_verifier_count, max_verifiers,
}
use trustbridge_contract.Merkle.{Digest, leaf_hash}
use trustbridge_contract.Contract.Monad.{Env, M, pure, gets, ◌>>=◌, ◌>>◌, reject_if}
use trustbridge_contract.Contract.Guards.{
  require_initialized, is_admin_caller, holds_role, get_role,
}

unfoldable pub has_role : Env → State → Address → Role → Bool
has_role env s a r = holds_role env s.access a r

-- The admin, an unexpired admin role, or the role asked for.
unfoldable pub has_role_or_admin : Env → State → Address → Role → Bool
has_role_or_admin env s a expected = is_admin_caller env s a || elim (get_role env s.access a) [
  | none ↦ false
  | some r ↦ role_eq r Role.admin || role_eq r expected
]

unfoldable pub get_role_holder_count : Access → ℕ
get_role_holder_count x = length x.role_index

unfoldable pub verifier_allowlist_active : Access → Bool
verifier_allowlist_active x = is_some x.allowlist

unfoldable pub verifier_is_active : Env → State → Address → Bool
verifier_is_active env s a = is_active_verifier a env.timestamp (get_allowlist s.access)

unfoldable pub verifier_slots_remaining : ℕ → Access → ℕ
verifier_slots_remaining now x = max_verifiers - active_verifier_count now (get_allowlist x)

unfoldable pub is_registration_in_cooldown : Env → State → Username → Bool
is_registration_in_cooldown env s u = is_in_cooldown env.timestamp s.governance.cooldown s.names u

unfoldable pub has_admin_role : Env → State → Address → Bool
has_admin_role env s a = is_admin_caller env s a

unfoldable pub usernames_match : Username → Username → Bool
usernames_match u v = eq_ignore_ascii_case u v

unfoldable pub is_username_valid : Username → Bool
is_username_valid u = is_valid_github_username u

unfoldable pub merkle_leaf_hash : Env → Username → Address → Bool → Digest
merkle_leaf_hash env u a verified = leaf_hash env.sha256 u (env.address_text a) verified

-- `BatchConfig::default`, and its check of a size.
abbrev pub max_batch_size : ℕ
max_batch_size = 100

abbrev pub is_default_batch_size : ℕ → Bool
is_default_batch_size size = ltb 0 size && leb size max_batch_size

-- The loop over the names: those with a record are counted.
unfoldable pub count_extended : Registry → List Username → ℕ → ℕ
count_extended r [] extended = extended
count_extended r (u ∷ us) extended =
    count_extended r us
      (if is_some (get_record r u) then saturating_add_u32 extended 1 else extended)

unfoldable pub extend_registry_ttl : List Username → M ℕ
extend_registry_ttl usernames = do
  require_initialized
  reject_if (not (is_default_batch_size (length usernames))) ContractError.invalid_batch_size
  s ← gets (λ s. s)
  pure (count_extended s.registry usernames 0)
