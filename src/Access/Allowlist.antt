-- ===== src/Access/Allowlist.antt =====
-- The verifier allowlist: its length, and what entering and leaving it do.
use trustbridge_contract.Base.{
  ℕ, ◌≡◌, ◌≤◌, refl, false, not, ◌&&◌, List, [], ◌∷◌, ◌++◌, leb, length, arith, if◌then◌else◌,
  length-append,
}
use trustbridge_contract.Types.{Address, VerifierAllowEntry}
use trustbridge_contract.Types.State.{Access}
use trustbridge_contract.Access.{
  max_verifiers, get_allowlist, has_entry, refreshed, entries_without, live_entries,
  prune_expired_verifiers, is_active_verifier,
}

length-refreshed :
    (a : Address) (e : VerifierAllowEntry) (l : List VerifierAllowEntry)
    → length (refreshed a e l) ≡ length l
unfolding refreshed
length-refreshed a e [] = refl
length-refreshed a e (x ∷ l) = ground (arith, length-refreshed a e l)

length-live : (now : ℕ) (l : List VerifierAllowEntry) → length (live_entries now l) ≤ length l
unfolding live_entries
length-live now [] = omega arith
length-live now (x ∷ l) = ground (arith, length-live now l)

-- Pruning never lengthens the list.
pub length-prune :
    (now : ℕ) (x : Access)
    → length (get_allowlist (prune_expired_verifiers now x)) ≤ length (get_allowlist x)
unfolding prune_expired_verifiers
length-prune now x = ground (arith, length-live now (get_allowlist x))

-- What is written for an address that enters.
pub length-entered :
    (a : Address) (e : VerifierAllowEntry) (l : List VerifierAllowEntry)
    → length l ≤ max_verifiers
    → (not (has_entry a l) && leb max_verifiers (length l)) ≡ false
    → length (if has_entry a l then refreshed a e l else l ++ e ∷ []) ≤ max_verifiers
length-entered a e l h free = ground (arith, length-refreshed a e l, length-append l (e ∷ []))

-- An address that left is no active verifier, at any time.
pub inactive_without :
    (a : Address) (now later : ℕ) (l : List VerifierAllowEntry)
    → is_active_verifier a later (entries_without a now l) ≡ false
unfolding is_active_verifier entries_without
inactive_without a now later [] = refl
inactive_without a now later (e ∷ l) = ground (arith, inactive_without a now later l)
