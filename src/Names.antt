-- ===== src/Names.antt =====
-- What src/storage.rs keeps for a name beside its record: the last action, the verification
-- time, the re-verify flag, the challenge, the pending rotation; and the reserved names.
use trustbridge_contract.Base.{
  ℕ, Bool, true, false, ◌||◌, Option, none, some, List, [], ◌∷◌, ltb, leb, ◌==◌, if◌then◌else◌,
  is_some, saturating_add_u64,
}
use trustbridge_contract.Username.{Username, eq_ignore_ascii_case}
use trustbridge_contract.Registry.{canon}
use trustbridge_contract.Types.{ChallengeRecord, PendingRotation}
use trustbridge_contract.Types.State.{Names, put_name}

unfoldable pub has_challenge : Names → Username → Bool
has_challenge n u = is_some (n.challenges (canon u))

unfoldable pub set_challenge : Username → ChallengeRecord → Names → Names
set_challenge u c n = record n { challenges = put_name (canon u) (some c) n.challenges }

unfoldable pub remove_challenge : Username → Names → Names
remove_challenge u n = record n { challenges = put_name (canon u) none n.challenges }

unfoldable pub has_pending_rotation : Names → Username → Bool
has_pending_rotation n u = is_some (n.rotations (canon u))

unfoldable pub get_pending_rotation : Names → Username → Option PendingRotation
get_pending_rotation n u = n.rotations (canon u)

unfoldable pub set_pending_rotation : Username → PendingRotation → Names → Names
set_pending_rotation u p n = record n { rotations = put_name (canon u) (some p) n.rotations }

unfoldable pub remove_pending_rotation : Username → Names → Names
remove_pending_rotation u n = record n { rotations = put_name (canon u) none n.rotations }

unfoldable pub get_pending_reverify : Names → Username → Bool
get_pending_reverify n u = n.pending_reverify (canon u)

unfoldable pub clear_pending_reverify : Username → Names → Names
clear_pending_reverify u n = record n {
  pending_reverify = put_name (canon u) false n.pending_reverify;
}

unfoldable pub set_pending_reverify : Username → Bool → Names → Names
unfolding clear_pending_reverify
set_pending_reverify u flag n =
    if flag
    then record n { pending_reverify = put_name (canon u) true n.pending_reverify }
    else clear_pending_reverify u n

unfoldable pub set_last_action : Username → ℕ → Names → Names
set_last_action u t n = record n { last_action = put_name (canon u) t n.last_action }

-- `is_in_cooldown`, with the cooldown of the governance entries.
unfoldable pub is_in_cooldown : ℕ → ℕ → Names → Username → Bool
is_in_cooldown now cooldown n u =
    let last = n.last_action (canon u) in
    if cooldown == 0
    then false
    else if last == 0
    then false
    else ltb now (saturating_add_u64 last cooldown)

-- `get_verified_at`, `set_verified_at` and `clear_verified_at` key the time by the name as given.
unfoldable pub set_verified_at : Username → ℕ → Names → Names
set_verified_at u t n = record n { verified_at = put_name u (some t) n.verified_at }

unfoldable pub clear_verified_at : Username → Names → Names
clear_verified_at u n = record n { verified_at = put_name u none n.verified_at }

unfoldable pub is_verification_expired : ℕ → Names → Username → Bool
is_verification_expired now n u = elim n.verification_config [
  | none ↦ false
  | some c ↦ if c.expires_in == 0 then false else elim (n.verified_at u) [
    | none ↦ false
    | some t ↦ leb (saturating_add_u64 t c.expires_in) now
  ]
]

-- `MAX_RESERVED`.
abbrev pub max_reserved : ℕ
max_reserved = 200

-- The loop of `is_reserved`.
unfoldable pub listed : Username → List Username → Bool
listed u [] = false
listed u (e ∷ es) = eq_ignore_ascii_case e u || listed u es

abbrev pub is_reserved : Names → Username → Bool
is_reserved n u = listed u n.reserved
