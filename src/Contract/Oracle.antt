-- ===== src/Contract/Oracle.antt =====
-- Verification by the proof of an oracle: `set_oracle_allowlist` and `verify_with_oracle_proof`
-- (src/lib.rs:3639), and the checks of a proof (src/oracle_proof.rs:91).
pub mod Effect
use trustbridge_contract.Base.{
  ℕ, Bool, not, ◌&&◌, ◌||◌, Option, none, some, List, ⊤, ltb, ◌==◌, bytes_eq, if◌then◌else◌,
}
use trustbridge_contract.Error.{ContractError}
use trustbridge_contract.Username.{Username}
use trustbridge_contract.Types.{Address, Hash}
use trustbridge_contract.Types.State.{State}
use trustbridge_contract.Registry.{get_record}
use trustbridge_contract.Oracle.{
  OracleProof, ownership_message, is_zero_signature, is_valid_signature_shape, lists_key, is_empty,
}
use trustbridge_contract.Contract.Monad.{
  Env, M, ok, trap, pure, ask, gets, ok_or, ◌>>=◌, ◌>>◌, reject_if, require_auth, on_access,
}
use trustbridge_contract.Contract.Guards.{require_initialized, require_not_paused, get_admin}
use trustbridge_contract.Contract.Verify.{require_bound_record_address, mark_verified}

unfoldable pub set_oracle_allowlist : List Hash → M ⊤
set_oracle_allowlist pubkeys = do
  require_initialized
  admin ← get_admin
  require_auth admin
  on_access (λ x. record x { oracle_allowlist = pubkeys })

-- The host traps on a signature that does not verify.
unfoldable pub ed25519_verify : OracleProof → M ⊤
ed25519_verify p env s =
    (if env.ed25519_verify p.oracle_pubkey p.message p.signature then ok tt else trap, s)

unfoldable pub verify_with_proof : OracleProof → M ⊤
verify_with_proof p = do
  reject_if (is_empty p.message || is_zero_signature p.signature)
      ContractError.oracle_proof_bad_layout
  env ← ask (λ e. e)
  s ← gets (λ s. s)
  reject_if (not (lists_key p.oracle_pubkey s.access.oracle_allowlist))
      ContractError.oracle_proof_not_allowlisted
  reject_if (not (p.expires_at == 0) && ltb p.expires_at env.timestamp)
      ContractError.oracle_proof_expired
  reject_if (not (is_valid_signature_shape p.signature)) ContractError.oracle_proof_bad_signature
  ed25519_verify p

-- The message that the contract builds; its digits always have a place.
unfoldable pub expected_message : Username → Address → ℕ → M (List ℕ)
expected_message u a expires_at env s =
    (elim (ownership_message u (env.address_text a) expires_at) [ none ↦ trap | some m ↦ ok m ], s)

unfoldable pub verify_ownership_proof : Username → Address → OracleProof → M ⊤
verify_ownership_proof u a p = do
  m ← expected_message u a p.expires_at
  reject_if (not (bytes_eq p.message m)) ContractError.address_mismatch
  verify_with_proof p

unfoldable pub verify_with_oracle_proof : Username → OracleProof → M ⊤
verify_with_oracle_proof u p = do
  require_initialized
  require_not_paused
  env ← ask (λ e. e)
  s ← gets (λ s. s)
  c ← ok_or (get_record s.registry u) ContractError.not_registered
  require_bound_record_address env c
  require_auth c.stellar_address
  verify_ownership_proof u c.stellar_address p
  mark_verified u c c.stellar_address
