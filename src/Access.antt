-- ===== src/Access.antt =====
-- The role and verifier entries of src/storage.rs: roles with their expiry and index, pending
-- grants, the verifier allowlist, the verification rate.
pub mod Rate
pub mod Allowlist
pub mod RoleIndex
use trustbridge_contract.Base.{
  ℕ, ◌+◌, ◌-◌, Bool, true, false, not, ◌&&◌, ◌||◌, Option, none, some, List, [], ◌∷◌, ◌++◌, length,
  ltb, leb, ◌==◌, if◌then◌else◌, is_some, saturating_add_u32,
}
use trustbridge_contract.Types.{Address, Role, PendingRoleGrant, VerifierAllowEntry}
use trustbridge_contract.Types.State.{Access, put_id}

-- The `any` of `add_to_role_index`, and the loop of `remove_from_role_index`.
unfoldable pub among : Address → List Address → Bool
among a [] = false
among a (b ∷ bs) = (b == a) || among a bs

unfoldable pub apart_from : Address → List Address → List Address
apart_from a [] = []
apart_from a (b ∷ bs) = if b == a then apart_from a bs else b ∷ apart_from a bs

unfoldable pub add_to_role_index : Address → Access → Access
add_to_role_index a x =
    if among a x.role_index then x else record x { role_index = x.role_index ++ a ∷ [] }

unfoldable pub remove_from_role_index : Address → Access → Access
remove_from_role_index a x =
    if among a x.role_index then record x { role_index = apart_from a x.role_index } else x

unfoldable pub set_role_with_expiry : Address → Role → Option ℕ → Access → Access
unfolding add_to_role_index
set_role_with_expiry a role expires_at x =
    let written = record x {
      roles = put_id a (some role) x.roles;
      role_expiry = put_id a expires_at x.role_expiry;
    } in
    if is_some (x.roles a) then written else add_to_role_index a written

abbrev pub set_role : Address → Role → Access → Access
set_role a role x = set_role_with_expiry a role none x

unfoldable pub remove_role : Address → Access → Access
unfolding remove_from_role_index
remove_role a x =
    remove_from_role_index a
      (record x { roles = put_id a none x.roles; role_expiry = put_id a none x.role_expiry })

abbrev pub set_pending_role : Address → PendingRoleGrant → Access → Access
set_pending_role a g x = record x { pending_roles = put_id a (some g) x.pending_roles }

abbrev pub remove_pending_role : Address → Access → Access
remove_pending_role a x = record x { pending_roles = put_id a none x.pending_roles }

-- `MAX_VERIFIERS`.
abbrev pub max_verifiers : ℕ
max_verifiers = 10

abbrev pub get_allowlist : Access → List VerifierAllowEntry
get_allowlist x = elim x.allowlist [ none ↦ [] | some l ↦ l ]

abbrev pub set_allowlist : List VerifierAllowEntry → Access → Access
set_allowlist l x = record x { allowlist = some l }

abbrev pub is_entry_live : ℕ → VerifierAllowEntry → Bool
is_entry_live now e = (e.expires_at == 0) || ltb now e.expires_at

abbrev pub is_entry_expired : ℕ → VerifierAllowEntry → Bool
is_entry_expired now e = not (e.expires_at == 0) && leb e.expires_at now

-- The loop of `is_active_verifier`: the first entry of the address decides.
unfoldable pub is_active_verifier : Address → ℕ → List VerifierAllowEntry → Bool
is_active_verifier a now [] = false
is_active_verifier a now (e ∷ es) =
    if e.address == a then is_entry_live now e else is_active_verifier a now es

-- `active_verifier_count`.
unfoldable pub active_verifier_count : ℕ → List VerifierAllowEntry → ℕ
active_verifier_count now [] = 0
active_verifier_count now (e ∷ es) =
    if is_entry_live now e then active_verifier_count now es + 1 else active_verifier_count now es

-- `prune_expired_verifiers`, which writes the list only where an entry leaves it.
unfoldable pub live_entries : ℕ → List VerifierAllowEntry → List VerifierAllowEntry
live_entries now [] = []
live_entries now (e ∷ es) =
    if is_entry_expired now e then live_entries now es else e ∷ live_entries now es

unfoldable pub prune_expired_verifiers : ℕ → Access → Access
prune_expired_verifiers now x =
    let kept = live_entries now (get_allowlist x) in
    if ltb (length kept) (length (get_allowlist x)) then set_allowlist kept x else x

-- The loop of `add_verifier`: the entries of the address are refreshed.
unfoldable pub refreshed :
    Address → VerifierAllowEntry → List VerifierAllowEntry → List VerifierAllowEntry
refreshed a entry [] = []
refreshed a entry (e ∷ es) = (if e.address == a then entry else e) ∷ refreshed a entry es

unfoldable pub has_entry : Address → List VerifierAllowEntry → Bool
has_entry a [] = false
has_entry a (e ∷ es) = (e.address == a) || has_entry a es

-- The loop of `remove_verifier`: the entries of the address go, and so do the expired ones.
unfoldable pub entries_without : Address → ℕ → List VerifierAllowEntry → List VerifierAllowEntry
entries_without a now [] = []
entries_without a now (e ∷ es) =
    if (e.address == a) || is_entry_expired now e
    then entries_without a now es
    else e ∷ entries_without a now es

-- `DEFAULT_VERIFIES_PER_LEDGER`, and `get_verify_limit`.
abbrev pub get_verify_limit : Access → ℕ
get_verify_limit x = elim x.verify_limit [ none ↦ 20 | some n ↦ n ]

-- What an address has spent in a ledger: `verify_units_spent`.
unfoldable pub verify_units_spent : ℕ → Address → Access → ℕ
verify_units_spent sequence a x = elim (x.verify_rate a) [
  | none ↦ 0
  | some (seq, spent) ↦ if seq == sequence then spent else 0
]

abbrev pub rate_entry : Address → Access → ℕ × ℕ
rate_entry a x = elim (x.verify_rate a) [ none ↦ (0, 0) | some e ↦ e ]

-- `charge_verify_rate`: `none` is the refusal `VerifyRateLimited`.
unfoldable pub charge_verify_rate : ℕ → Address → ℕ → Access → Option Access
charge_verify_rate sequence a units x =
    let (seq, spent) = rate_entry a x in
    let next = saturating_add_u32 (if seq == sequence then spent else 0) units in
    if get_verify_limit x == 0
    then some x
    else if ltb (get_verify_limit x) next
    then none
    else some (record x { verify_rate = put_id a (some (sequence, next)) x.verify_rate })
