-- ===== src/Error.antt =====
-- The contract's error enum (src/error.rs): the codes it travels as, and its retry policy.
pub mod Codes
use trustbridge_contract.Base.{
  ℕ, Bool, true, false, Option, none, some, List, [], ◌∷◌, ◌==◌, if◌then◌else◌,
}

-- `enum ContractError`.
pub data ContractError : Type 0 where
  already_initialized not_initialized not_authorized not_registered already_verified : ContractError
  not_verified paused cooldown_active invalid_version invalid_role invalid_username : ContractError
  attestation_expired unattested_wasm invalid_batch_size invalid_reason_code zero_address :
      ContractError
  challenge_already_active no_challenge_active challenge_not_resolvable challenge_active :
      ContractError
  invalid_pause_reason already_reserved not_reserved username_reserved reserved_list_full :
      ContractError
  admin_transfer_pending admin_transfer_delay_active no_pending_admin_transfer : ContractError
  attestation_required network_mismatch verifier_allowlist_full verifier_not_allowlisted :
      ContractError
  verifier_expiry_in_past no_pending_role_grant role_grant_not_ready provenance_missing :
      ContractError
  provenance_mismatch staged_wasm_mismatch upgrade_proposal_already_pending : ContractError
  no_upgrade_proposal_pending upgrade_proposal_already_approved : ContractError
  upgrade_proposal_delay_active upgrade_proposal_insufficient_approvals fallback_list_full :
      ContractError
  username_taken rotation_required rotation_pending no_rotation_pending rotation_not_ready :
      ContractError
  invalid_cursor verify_rate_limited dual_control_required batch_remove_proposal_pending :
      ContractError
  no_pending_batch_remove role_expired oracle_proof_bad_layout : ContractError
  oracle_proof_not_allowlisted oracle_proof_expired oracle_proof_bad_signature : ContractError
  address_mismatch : ContractError

-- `ContractError::code`: the discriminant.
unfoldable pub code : ContractError → ℕ
code already_initialized = 1
code not_initialized = 2
code not_authorized = 3
code not_registered = 4
code already_verified = 5
code not_verified = 6
code paused = 7
code cooldown_active = 8
code invalid_version = 9
code invalid_role = 10
code invalid_username = 11
code attestation_expired = 12
code unattested_wasm = 13
code invalid_batch_size = 14
code invalid_reason_code = 15
code zero_address = 16
code challenge_already_active = 17
code no_challenge_active = 18
code challenge_not_resolvable = 19
code challenge_active = 20
code invalid_pause_reason = 21
code already_reserved = 22
code not_reserved = 23
code username_reserved = 24
code reserved_list_full = 25
code admin_transfer_pending = 26
code admin_transfer_delay_active = 27
code no_pending_admin_transfer = 28
code attestation_required = 29
code network_mismatch = 30
code verifier_allowlist_full = 31
code verifier_not_allowlisted = 32
code verifier_expiry_in_past = 33
code no_pending_role_grant = 34
code role_grant_not_ready = 35
code provenance_missing = 36
code provenance_mismatch = 37
code staged_wasm_mismatch = 39
code upgrade_proposal_already_pending = 40
code no_upgrade_proposal_pending = 41
code upgrade_proposal_already_approved = 42
code upgrade_proposal_delay_active = 43
code upgrade_proposal_insufficient_approvals = 44
code fallback_list_full = 46
code username_taken = 47
code rotation_required = 48
code rotation_pending = 49
code no_rotation_pending = 50
code rotation_not_ready = 51
code invalid_cursor = 52
code verify_rate_limited = 53
code dual_control_required = 54
code batch_remove_proposal_pending = 55
code no_pending_batch_remove = 56
code role_expired = 57
code oracle_proof_bad_layout = 58
code oracle_proof_not_allowlisted = 59
code oracle_proof_expired = 60
code oracle_proof_bad_signature = 61
code address_mismatch = 62

-- The arms of the match in `ContractError::from_code`, in order.
abbrev pub from_code_arms : List (ℕ × ContractError)
from_code_arms =
    (1, already_initialized)
    ∷ (2, not_initialized)
    ∷ (3, not_authorized)
    ∷ (4, not_registered)
    ∷ (5, already_verified)
    ∷ (6, not_verified)
    ∷ (7, paused)
    ∷ (8, cooldown_active)
    ∷ (9, invalid_version)
    ∷ (10, invalid_role)
    ∷ (11, invalid_username)
    ∷ (12, attestation_expired)
    ∷ (13, unattested_wasm)
    ∷ (14, invalid_batch_size)
    ∷ (15, invalid_reason_code)
    ∷ (16, zero_address)
    ∷ (17, challenge_already_active)
    ∷ (18, no_challenge_active)
    ∷ (19, challenge_not_resolvable)
    ∷ (20, challenge_active)
    ∷ (21, invalid_pause_reason)
    ∷ (22, already_reserved)
    ∷ (23, not_reserved)
    ∷ (24, username_reserved)
    ∷ (25, reserved_list_full)
    ∷ (26, admin_transfer_pending)
    ∷ (27, admin_transfer_delay_active)
    ∷ (28, no_pending_admin_transfer)
    ∷ (29, attestation_required)
    ∷ (30, network_mismatch)
    ∷ (31, verifier_allowlist_full)
    ∷ (32, verifier_not_allowlisted)
    ∷ (33, verifier_expiry_in_past)
    ∷ (34, no_pending_role_grant)
    ∷ (35, role_grant_not_ready)
    ∷ (36, provenance_missing)
    ∷ (37, provenance_mismatch)
    ∷ (39, staged_wasm_mismatch)
    ∷ (40, upgrade_proposal_already_pending)
    ∷ (41, no_upgrade_proposal_pending)
    ∷ (42, upgrade_proposal_already_approved)
    ∷ (43, upgrade_proposal_delay_active)
    ∷ (44, upgrade_proposal_insufficient_approvals)
    ∷ (46, fallback_list_full)
    ∷ (47, username_taken)
    ∷ (48, rotation_required)
    ∷ (49, rotation_pending)
    ∷ (50, no_rotation_pending)
    ∷ (51, rotation_not_ready)
    ∷ (52, invalid_cursor)
    ∷ (53, verify_rate_limited)
    ∷ (54, dual_control_required)
    ∷ (55, batch_remove_proposal_pending)
    ∷ (56, no_pending_batch_remove)
    ∷ (57, role_expired)
    ∷ (58, oracle_proof_bad_layout)
    ∷ (59, oracle_proof_not_allowlisted)
    ∷ (60, oracle_proof_expired)
    ∷ (61, oracle_proof_bad_signature)
    ∷ (62, address_mismatch)
    ∷ []

-- The first arm that fits; the wildcard arm gives `None`.
pub first_arm : ℕ → List (ℕ × ContractError) → Option ContractError
first_arm n [] = none
first_arm n ((c, e) ∷ arms) = if n == c then some e else first_arm n arms

-- `ContractError::from_code`.
unfoldable pub from_code : ℕ → Option ContractError
unfolding first_arm
from_code n = first_arm n from_code_arms

-- `enum ErrorCategory`.
pub data ErrorCategory : Type 0 where
  auth retry fatal : ErrorCategory

-- `ContractError::category`.
unfoldable pub category : ContractError → ErrorCategory
category not_authorized = auth
category invalid_role = auth
category verifier_not_allowlisted = auth
category verifier_expiry_in_past = auth
category role_expired = auth
category oracle_proof_not_allowlisted = auth
category cooldown_active = retry
category challenge_not_resolvable = retry
category admin_transfer_delay_active = retry
category rotation_not_ready = retry
category verify_rate_limited = retry
category upgrade_proposal_delay_active = retry
category upgrade_proposal_insufficient_approvals = retry
category role_grant_not_ready = retry
category verifier_allowlist_full = fatal
category already_initialized = fatal
category not_initialized = fatal
category not_registered = fatal
category already_verified = fatal
category not_verified = fatal
category paused = fatal
category invalid_version = fatal
category invalid_username = fatal
category attestation_expired = fatal
category unattested_wasm = fatal
category invalid_batch_size = fatal
category invalid_reason_code = fatal
category zero_address = fatal
category challenge_already_active = fatal
category no_challenge_active = fatal
category challenge_active = fatal
category invalid_pause_reason = fatal
category already_reserved = fatal
category not_reserved = fatal
category username_reserved = fatal
category reserved_list_full = fatal
category admin_transfer_pending = fatal
category no_pending_admin_transfer = fatal
category attestation_required = fatal
category network_mismatch = fatal
category no_pending_role_grant = fatal
category provenance_missing = fatal
category provenance_mismatch = fatal
category staged_wasm_mismatch = fatal
category upgrade_proposal_already_pending = fatal
category no_upgrade_proposal_pending = fatal
category upgrade_proposal_already_approved = fatal
category fallback_list_full = fatal
category username_taken = fatal
category rotation_required = fatal
category rotation_pending = fatal
category no_rotation_pending = fatal
category invalid_cursor = fatal
category dual_control_required = fatal
category batch_remove_proposal_pending = fatal
category no_pending_batch_remove = fatal
category oracle_proof_bad_layout = fatal
category oracle_proof_expired = fatal
category oracle_proof_bad_signature = fatal
category address_mismatch = fatal

-- `ContractError::is_retryable`.
unfoldable pub is_retryable : ContractError → Bool
unfolding category
is_retryable e = elim (category e) [ retry ↦ true | _ ↦ false ]
