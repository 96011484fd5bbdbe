-- ===== src/Access/RoleIndex.antt =====
-- The index of the role holders lists exactly the addresses with a role.
use trustbridge_contract.Base.{
  ℕ, ◌≡◌, not, ◌&&◌, ◌||◌, List, [], ◌∷◌, ◌++◌, ◌==◌, is_some, arith, refl, Option, none,
}
use trustbridge_contract.Types.{Address, Role}
use trustbridge_contract.Types.State.{Access}
use trustbridge_contract.Access.{among, apart_from, set_role_with_expiry, remove_role}

among-append :
    (a : Address) (xs ys : List Address) → among a (xs ++ ys) ≡ (among a xs || among a ys)
unfolding among
among-append a [] ys = refl
among-append a (x ∷ xs) ys = ground (arith, among-append a xs ys)

among-apart :
    (b a : Address) (xs : List Address) → among b (apart_from a xs) ≡ (not (a == b) && among b xs)
unfolding among apart_from
among-apart b a [] = ground arith
among-apart b a (x ∷ xs) = ground (arith, among-apart b a xs)

among_single : (b a : Address) → among b (a ∷ []) ≡ (a == b)
unfolding among
among_single b a = ground arith

-- Every address with a role is listed, and no other.
unfoldable pub RolesListed : Access → Type 0
RolesListed x = (a : Address) → among a x.role_index ≡ is_some (x.roles a)

-- Granting a role, with or without an expiry, keeps the role index exact: it lists an address if
-- and only if the address has a role entry.
pub set_role-RolesListed :
    (a : Address) (r : Role) (e : Option ℕ) (x : Access)
    → RolesListed x
    → RolesListed (set_role_with_expiry a r e x)
unfolding RolesListed set_role_with_expiry
set_role-RolesListed a r e x h b =
    ground (arith, h b, h a, among-append b x.role_index (a ∷ []), among_single b a)

-- Removing a role keeps the role index exact, and leaves no role entry of the address.
pub remove_role-RolesListed :
    (a : Address) (x : Access)
    → RolesListed x
    → RolesListed (remove_role a x) × ((remove_role a x).roles a ≡ none)
unfolding RolesListed remove_role
remove_role-RolesListed a x h =
    (λ b. ground (arith, h b, h a, among-apart b a x.role_index), ground arith)
