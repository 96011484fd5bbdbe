-- ===== src/Contract/Roles/Allowlist.antt =====
-- `add_verifier` and `remove_verifier`: the list stays bounded, and whoever leaves has no access.
use trustbridge_contract.Base.{
  ℕ, ◌≡◌, ◌≤◌, false, not, ◌&&◌, [], ◌∷◌, ◌++◌, leb, length, arith, none, if◌then◌else◌,
}
use trustbridge_contract.Types.{Address, VerifierAllowEntry, Role}
use trustbridge_contract.Types.State.{State, Access}
use trustbridge_contract.Access
use trustbridge_contract.Access.{
  max_verifiers, get_allowlist, set_allowlist, has_entry, refreshed, entries_without,
  prune_expired_verifiers, is_active_verifier,
}
use trustbridge_contract.Access.Allowlist.{length-prune, length-entered, inactive_without}
use trustbridge_contract.Contract.Monad.{Env}
use trustbridge_contract.Contract.Rules.{OnOk, Returns, Returns-OnOk, steps}
use trustbridge_contract.Contract.Writes.{writes}
use trustbridge_contract.Contract.Guards.{get_role}
use trustbridge_contract.Contract.Guards.Same.{checks}
use trustbridge_contract.Contract.Roles.{add_verifier, remove_verifier}

set_role_allowlist :
    (a : Address) (r : Role) (x : Access) → get_allowlist (Access.set_role a r x) ≡ get_allowlist x
unfolding Access.set_role_with_expiry
set_role_allowlist a r x = ground arith

remove_role_allowlist :
    (a : Address) (x : Access) → get_allowlist (Access.remove_role a x) ≡ get_allowlist x
unfolding Access.remove_role
remove_role_allowlist a x = ground arith

abbrev Bounded : Access → Type 0
Bounded x = length (get_allowlist x) ≤ max_verifiers

entered-Bounded :
    (a : Address) (e : VerifierAllowEntry) (x : Access)
    → Bounded x
    → (not (has_entry a (get_allowlist x)) && leb max_verifiers (length (get_allowlist x))) ≡ false
    → Bounded (
        Access.set_role a Role.verifier (
          set_allowlist
            (if has_entry a (get_allowlist x)
              then refreshed a e (get_allowlist x)
              else get_allowlist x ++ e ∷ [])
            x))
entered-Bounded a e x h free = rw set_role_allowlist (length-entered a e (get_allowlist x) h free)

pruned-Bounded : (now : ℕ) (x : Access) → Bounded x → Bounded (prune_expired_verifiers now x)
pruned-Bounded now x h = omega (arith, length-prune now x)

add_verifier-Returns :
    (a : Address) (expires_at : ℕ) (env : Env) (s : State)
    → Bounded s.access
    → Returns (λ s'. Bounded s'.access) (add_verifier a expires_at) env s
unfolding add_verifier
add_verifier-Returns a expires_at env s h =
    search (steps, checks, writes, entered-Bounded a _ _, pruned-Bounded) depth 60

-- An allowlist of at most ten entries has at most ten entries when `add_verifier` returns.
pub add_verifier-Bounded :
    (a : Address) (expires_at : ℕ) (env : Env) (s : State)
    → length (get_allowlist s.access) ≤ max_verifiers
    → OnOk
        (λ s'. length (get_allowlist s'.access) ≤ max_verifiers)
        (add_verifier a expires_at env s)
add_verifier-Bounded a expires_at env s h = Returns-OnOk (add_verifier-Returns a expires_at env s h)

-- No role and no live entry, at any time.
abbrev pub Gone : Address → Access → Type 0
Gone a x =
    ((env : Env) → get_role env x a ≡ none)
    × ((now : ℕ) → is_active_verifier a now (get_allowlist x) ≡ false)

left-Gone :
    (a : Address) (t : ℕ) (x : Access)
    → Gone a (Access.remove_role a (set_allowlist (entries_without a t (get_allowlist x)) x))
unfolding get_role Access.remove_role
left-Gone a t x =
    (λ env. ground arith, λ now. ground (arith, inactive_without a t now (get_allowlist x)))

remove_verifier-Returns :
    (a : Address) (env : Env) (s : State)
    → Returns (λ s'. Gone a s'.access) (remove_verifier a) env s
unfolding remove_verifier
remove_verifier-Returns a env s =
    search (steps, checks, writes, left-Gone a env.timestamp s.access) depth 60

-- When `remove_verifier` returns, the address holds no role and is no active verifier of the
-- allowlist, at whatever time it is asked.
pub remove_verifier-Gone :
    (a : Address) (env : Env) (s : State) → OnOk (λ s'. Gone a s'.access) (remove_verifier a env s)
remove_verifier-Gone a env s = Returns-OnOk (remove_verifier-Returns a env s)
