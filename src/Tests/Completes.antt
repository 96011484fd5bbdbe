-- ===== src/Tests/Completes.antt =====
-- Calls that go through, at concrete states.
use trustbridge_contract.Base.{◌≡◌, refl, [], arith, bytes_eq}
use trustbridge_contract.Username.{
  is_valid_github_username, copy_into_buf, is_ascii_alphanumeric, scan, canonicalize_username,
  utf8_from, utf8_step, lead, to_ascii_lowercase,
}
use trustbridge_contract.Types.{AuditEventType}
use trustbridge_contract.Registry.{get_record}
use trustbridge_contract.Names.{listed, has_challenge, is_in_cooldown, get_pending_rotation}
use trustbridge_contract.Contract.Monad.{ok}
use trustbridge_contract.Contract.Guards.{network_mismatch, record_event, bump_kind}
use trustbridge_contract.Contract.Guards.Serves.{Serves}
use trustbridge_contract.Contract.Register.{register}
use trustbridge_contract.Contract.Register.Completes.{register-returns}
use trustbridge_contract.Contract.Remove.{remove}
use trustbridge_contract.Contract.Remove.Completes.{remove-returns}
use trustbridge_contract.Contract.Rotation.{execute_address_rotation}
use trustbridge_contract.Contract.Rotation.Completes.{execute_address_rotation-returns}
use trustbridge_contract.Contract.Challenge.{complete_challenge, get_challenge}
use trustbridge_contract.Contract.Challenge.Completes.{complete_challenge-returns}
use trustbridge_contract.Contract.Verify.{verify}
use trustbridge_contract.Contract.Verify.Completes.{verify-returns}
use trustbridge_contract.Tests.{
  alice, admin, holder, newcomer, at_1000, start, with_alice, rotation_pending, challenge_pending,
  alice_record,
}

Serves-start : Serves AuditEventType.user_registered at_1000 start
unfolding network_mismatch record_event bump_kind
Serves-start = record {
  initialized = refl;
  on_network = refl;
  not_paused = refl;
  audit_room = refl;
}

Serves-removal : Serves AuditEventType.user_removed at_1000 with_alice
unfolding network_mismatch record_event bump_kind
Serves-removal = record {
  initialized = refl;
  on_network = refl;
  not_paused = refl;
  audit_room = refl;
}

Serves-verification : Serves AuditEventType.user_verified at_1000 with_alice
unfolding network_mismatch record_event bump_kind
Serves-verification = record {
  initialized = refl;
  on_network = refl;
  not_paused = refl;
  audit_room = refl;
}

Serves-rotation : Serves AuditEventType.user_registered at_1000 rotation_pending
unfolding network_mismatch record_event bump_kind
Serves-rotation = record {
  initialized = refl;
  on_network = refl;
  not_paused = refl;
  audit_room = refl;
}

Serves-challenge : Serves AuditEventType.user_removed at_1000 challenge_pending
unfolding network_mismatch record_event bump_kind
Serves-challenge = record {
  initialized = refl;
  on_network = refl;
  not_paused = refl;
  audit_room = refl;
}

register-returns_example : (register alice holder [] at_1000 start).0 ≡ ok tt
unfolding is_valid_github_username copy_into_buf is_ascii_alphanumeric scan listed has_challenge
    get_record is_in_cooldown canonicalize_username utf8_from utf8_step lead to_ascii_lowercase
register-returns_example =
    register-returns alice holder at_1000 start Serves-start refl refl refl refl refl refl refl

remove-returns_example : (remove holder alice at_1000 with_alice).0 ≡ ok tt
unfolding get_record canonicalize_username utf8_from utf8_step lead to_ascii_lowercase bytes_eq
remove-returns_example =
    remove-returns holder admin alice alice_record at_1000 with_alice Serves-removal refl refl refl
      refl

execute_address_rotation-returns_example :
    (execute_address_rotation alice at_1000 rotation_pending).0 ≡ ok tt
unfolding get_record get_pending_rotation canonicalize_username utf8_from utf8_step lead
    to_ascii_lowercase bytes_eq
execute_address_rotation-returns_example =
    execute_address_rotation-returns alice alice_record
      (record { new_address = newcomer; requested_at = 900; executable_at = 950 }) at_1000
      rotation_pending Serves-rotation refl refl (omega arith) refl

complete_challenge-returns_example :
    (complete_challenge admin alice at_1000 challenge_pending).0 ≡ ok tt
unfolding get_record get_challenge canonicalize_username utf8_from utf8_step lead to_ascii_lowercase
    bytes_eq
complete_challenge-returns_example =
    complete_challenge-returns admin alice
      (record { challenged_by = admin; started_at = 1; resolve_after = 999 }) alice_record at_1000
      challenge_pending Serves-challenge refl refl refl (omega arith) refl

verify-returns_example : (verify admin alice at_1000 with_alice).0 ≡ ok tt
unfolding get_record canonicalize_username utf8_from utf8_step lead to_ascii_lowercase bytes_eq
verify-returns_example =
    verify-returns admin alice alice_record at_1000 with_alice Serves-verification refl refl refl
      refl refl
