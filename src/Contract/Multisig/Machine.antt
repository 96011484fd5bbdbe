-- ===== src/Contract/Multisig/Machine.antt =====
-- The life of an upgrade proposal as a state machine: what src/multisig_upgrade.rs promises.
use trustbridge_contract.Base.{
  ℕ, ⊤, ◌≡◌, ◌≢◌, ◌≤◌, ◌<◌, refl, sym, false, Option, none, some, List, [], ◌∷◌, ◌++◌, length,
  length-append, arith, saturating_add_u64,
}
use trustbridge_contract.Types.{Address, Hash, UpgradeProposal}
use trustbridge_contract.Contract.Multisig.{has_approved, max_upgrade_signers}

abbrev pub NotIn : Address → List Address → Type 0
NotIn a [] = ⊤
NotIn a (b ∷ bs) = (a ≢ b) × NotIn a bs

-- No signer stands twice.
abbrev pub Distinct : List Address → Type 0
Distinct [] = ⊤
Distinct (a ∷ xs) = NotIn a xs × Distinct xs

abbrev pub sign : Address → UpgradeProposal → UpgradeProposal
sign a p = record p { approvers = p.approvers ++ a ∷ [] }

-- The calls that touch a proposal.
pub data Signing : Type 0 where
  propose : Address → Hash → ℕ → Signing
  approve : Address → ℕ → Signing
  execute : Address → ℕ → Signing
  cancel : Address → ℕ → Signing

-- What each call may do to the pending proposal, under a threshold and at a time. A signature that
-- finds no slot is not recorded.
pub data Life (threshold now : ℕ)
    : Signing → Option UpgradeProposal → Option UpgradeProposal → Type 0 where
  proposed :
      (a : Address) (h : Hash) (delay : ℕ) (p : UpgradeProposal)
      → p.proposed_by ≡ a
      → p.wasm_hash ≡ h
      → p.approvers ≡ a ∷ []
      → p.proposed_at ≡ now
      → p.executable_at ≡ saturating_add_u64 now delay
      → Life threshold now (Signing.propose a h delay) none (some p)
  approved :
      (a : Address) (p : UpgradeProposal)
      → NotIn a p.approvers
      → length p.approvers < max_upgrade_signers
      → Life threshold now (Signing.approve a p.id) (some p) (some (sign a p))
  overflowed :
      (a : Address) (p : UpgradeProposal)
      → NotIn a p.approvers
      → max_upgrade_signers ≤ length p.approvers
      → Life threshold now (Signing.approve a p.id) (some p) (some p)
  executed :
      (a : Address) (p : UpgradeProposal)
      → threshold ≤ length p.approvers
      → p.executable_at ≤ now
      → Life threshold now (Signing.execute a p.id) (some p) none
  cancelled :
      (a : Address) (p : UpgradeProposal) → Life threshold now (Signing.cancel a p.id) (some p) none

-- The signers of a pending proposal are distinct, at least one and at most twenty.
pub record Signed (p : UpgradeProposal) : Type 0 where
  pub distinct : Distinct p.approvers
  pub some_signer : 0 < length p.approvers
  pub fits : length p.approvers ≤ max_upgrade_signers

abbrev pub Pending : Option UpgradeProposal → Type 0
Pending none = ⊤
Pending (some p) = Signed p

NotIn-snoc : (a b : Address) (xs : List Address) → NotIn a xs → a ≢ b → NotIn a (xs ++ b ∷ [])
NotIn-snoc a b [] h e = (e, tt)
NotIn-snoc a b (c ∷ cs) h e = (h.0, NotIn-snoc a b cs h.1 e)

NotIn-head : (a b : Address) (xs : List Address) → NotIn a (b ∷ xs) → b ≢ a
NotIn-head a b xs h e = h.0 (sym e)

Distinct-snoc :
    (a : Address) (xs : List Address) → Distinct xs → NotIn a xs → Distinct (xs ++ a ∷ [])
Distinct-snoc a [] h k = (tt, tt)
Distinct-snoc a (b ∷ bs) h k =
    (NotIn-snoc b a bs h.0 (NotIn-head a b bs k), Distinct-snoc a bs h.1 k.1)

pub NotIn-has_approved : (a : Address) (xs : List Address) → has_approved a xs ≡ false → NotIn a xs
unfolding has_approved
NotIn-has_approved a [] h = tt
NotIn-has_approved a (b ∷ bs) h = (ground arith, NotIn-has_approved a bs (ground arith))

pub has_approved-NotIn : (a : Address) (xs : List Address) → NotIn a xs → has_approved a xs ≡ false
unfolding has_approved
has_approved-NotIn a [] h = refl
has_approved-NotIn a (b ∷ bs) h = ground (arith, h.0, has_approved-NotIn a bs h.1)

pub sign-Signed :
    (a : Address) (p : UpgradeProposal)
    → Signed p
    → NotIn a p.approvers
    → length p.approvers < max_upgrade_signers
    → Signed (sign a p)
sign-Signed a p h k fits = record {
  distinct = Distinct-snoc a p.approvers h.distinct k;
  some_signer = omega (arith, length-append {0} p.approvers (a ∷ []));
  fits = omega (arith, length-append {0} p.approvers (a ∷ []));
}

pub Life-Pending :
    (threshold now : ℕ) (c : Signing) (o o' : Option UpgradeProposal)
    → Life threshold now c o o'
    → Pending o
    → Pending o'
Life-Pending threshold now _ _ _ (Life.proposed a w d p by hash signers at due) h = record {
  distinct = rw signers (tt, tt);
  some_signer = rw signers (omega arith);
  fits = rw signers (omega arith);
}
Life-Pending threshold now _ _ _ (Life.approved a p new fits) h = sign-Signed a p h new fits
Life-Pending threshold now _ _ _ (Life.overflowed a p new full) h = h
Life-Pending threshold now _ _ _ (Life.executed a p enough due) h = tt
Life-Pending threshold now _ _ _ (Life.cancelled a p) h = tt
