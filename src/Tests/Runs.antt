-- ===== src/Tests/Runs.antt =====
-- The calls of the witnesses return.
use trustbridge_contract.Base.{◌≡◌, refl, [], bytes_eq}
use trustbridge_contract.Username.{
  is_valid_github_username, copy_into_buf, is_ascii_alphanumeric, scan, canonicalize_username,
  utf8_from, utf8_step, lead, to_ascii_lowercase,
}
use trustbridge_contract.Registry.{get_record, set_record, add_to_index}
use trustbridge_contract.Names.{
  has_challenge, listed, is_in_cooldown, set_last_action, get_pending_rotation,
  remove_pending_rotation,
}
use trustbridge_contract.Contract.Monad.{ok, actions}
use trustbridge_contract.Contract.Guards.{
  require_initialized, require_not_paused, get_admin, event_domain, publish, set_last_event_ledger,
  push_audit_entry, record_event, bump_kind, push_log,
}
use trustbridge_contract.Contract.Register.{
  register, check_fallbacks, require_old_holder, commit, new_record,
}
use trustbridge_contract.Contract.Rotation.{execute_address_rotation, hand_over}
use trustbridge_contract.Contract.Roles.{remove_verifier}
use trustbridge_contract.Access.{has_entry}
use trustbridge_contract.Tests.{
  alice, holder, second_admin, at_1000, start, rotation_pending, with_verifier,
}

registers : (register alice holder [] at_1000 start).0 ≡ ok tt
unfolding register actions require_initialized get_admin require_not_paused is_valid_github_username
    copy_into_buf is_ascii_alphanumeric scan canonicalize_username utf8_from utf8_step lead
    to_ascii_lowercase listed has_challenge check_fallbacks require_old_holder get_record
    is_in_cooldown commit new_record set_record add_to_index set_last_action event_domain publish
    set_last_event_ledger push_audit_entry record_event bump_kind push_log
registers = refl

rotates : (execute_address_rotation alice at_1000 rotation_pending).0 ≡ ok tt
unfolding execute_address_rotation hand_over actions require_initialized require_not_paused
    canonicalize_username utf8_from utf8_step lead to_ascii_lowercase get_record
    get_pending_rotation set_record set_last_action remove_pending_rotation publish push_audit_entry
    record_event bump_kind push_log bytes_eq
rotates = refl

removes_verifier : (remove_verifier second_admin at_1000 with_verifier).0 ≡ ok tt
unfolding remove_verifier actions require_initialized get_admin require_not_paused has_entry
    event_domain publish
removes_verifier = refl
