-- ===== src/Contract/Run/Administered.antt =====
-- The calls that leave the registry alone.
use trustbridge_contract.Base.{ℕ, Bool, true, false, Option, none, some}
use trustbridge_contract.Types.{Address, Hash, Role}
use trustbridge_contract.Contract.Run.{Admin, administration}
use trustbridge_contract.Contract.Run.Frame.{Keeps, keeping}
use trustbridge_contract.Contract.Remove
use trustbridge_contract.Contract.Rotation
use trustbridge_contract.Contract.Challenge
use trustbridge_contract.Contract.Control
use trustbridge_contract.Contract.Roles
use trustbridge_contract.Contract.Maintenance

announce_pause-Keeps : (b : Bool) (a : Address) (r t : ℕ) → Keeps (Control.announce_pause b a r t)
unfolding Control.announce_pause
announce_pause-Keeps true a r t = search keeping depth 20
announce_pause-Keeps false a r t = search keeping depth 20

flip_pause-Keeps : (b p : Bool) (a : Address) (r t : ℕ) → Keeps (Control.flip_pause b p a r t)
unfolding Control.flip_pause
flip_pause-Keeps true p a r t = search keeping depth 20
flip_pause-Keeps false p a r t = search (keeping, announce_pause-Keeps) depth 20

raise_emergency-Keeps : (b : Bool) (a : Address) (t : ℕ) → Keeps (Control.raise_emergency b a t)
unfolding Control.raise_emergency
raise_emergency-Keeps true a t = search keeping depth 20
raise_emergency-Keeps false a t = search keeping depth 20

lift_emergency-Keeps : (b : Bool) (a : Address) (t : ℕ) → Keeps (Control.lift_emergency b a t)
unfolding Control.lift_emergency
lift_emergency-Keeps true a t = search keeping depth 20
lift_emergency-Keeps false a t = search keeping depth 20

adopt-Keeps : (o : Option Hash) (live : Hash) → Keeps (Control.adopt o live)
unfolding Control.adopt
adopt-Keeps none live = search keeping depth 20
adopt-Keeps (some n) live = search keeping depth 20

grant_or_wait-Keeps :
    (b : Bool) (a : Address) (r : Role) (admin : Address) (delay now : ℕ)
    → Keeps (Roles.grant_or_wait b a r admin delay now)
unfolding Roles.grant_or_wait
grant_or_wait-Keeps true a r admin delay now = search keeping depth 20
grant_or_wait-Keeps false a r admin delay now = search keeping depth 20

ruleset branches = (
  announce_pause-Keeps, flip_pause-Keeps, raise_emergency-Keeps, lift_emergency-Keeps, adopt-Keeps,
  grant_or_wait-Keeps,
)

pub administration-Keeps : (a : Admin) → Keeps (administration a)
unfolding administration Remove.propose_batch_remove Remove.cancel_batch_remove
    Remove.set_batch_remove_threshold Rotation.set_rotation_delay Rotation.request_address_rotation
    Rotation.cancel_address_rotation Challenge.start_challenge Challenge.cancel_challenge
    Control.pause Control.unpause Control.set_paused Control.set_guardian Control.emergency_pause
    Control.clear_emergency_pause Control.adopt_network_tag Roles.set_role Roles.set_role_delay
    Roles.activate_role Roles.cancel_role_grant Roles.remove_role Roles.set_role_with_expiry
    Roles.add_verifier Roles.remove_verifier Maintenance.add_reserved Maintenance.remove_reserved
administration-Keeps (Admin.set_paused b r) = search (keeping, branches) depth 60
administration-Keeps _ = search (keeping, branches) depth 60
