-- ===== src/Contract/Multisig/Signers.antt =====
-- The calls of the multisig flow (src/multisig_upgrade.rs) as steps of the life of a proposal.
use mathlib.Core.Path.{subst}
use trustbridge_contract.Base.{
  ℕ, ⊤, ◌≡◌, ◌≤◌, refl, sym, Bool, Option, none, some, true, false, arith, ltb, ◌++◌, ◌∷◌, [],
  is_some, length, not, ◌==◌, if◌then◌else◌,
}
use trustbridge_contract.Types.{Address, UpgradeProposal}
use trustbridge_contract.Types.State.{State, Governance}
use trustbridge_contract.Contract.Monad.{Env, M}
use trustbridge_contract.Contract.Rules.{OnOk, Returns-OnOk}
use trustbridge_contract.Contract.Multisig.{
  propose_multisig_upgrade, approve_upgrade, execute_upgrade, cancel_upgrade_proposal,
  lacks_approvals, get_upgrade_threshold, max_upgrade_signers,
}
use trustbridge_contract.Contract.Multisig.Machine.{Signing, Life, NotIn, NotIn-has_approved}
use trustbridge_contract.Contract.Multisig.Effect.{
  propose-Returns, approve-Returns, cancel-Returns, execute-Returns, deploy-deployed,
}

unfoldable pub signing : Signing → M ⊤
signing (Signing.propose a h d) = propose_multisig_upgrade a h d
signing (Signing.approve a id) = approve_upgrade a id
signing (Signing.execute a id) = execute_upgrade a id
signing (Signing.cancel a id) = cancel_upgrade_proposal a id

same_id : (n m : ℕ) → not (n == m) ≡ false → n ≡ m
same_id n m h = ground arith

-- The step of a call on the proposal that was pending before it.
module _ (env : Env) (s : State) where
  abbrev Step : Signing → Governance → Type 0
  Step c g =
      Life (get_upgrade_threshold s.governance) env.timestamp c s.governance.proposal g.proposal

  abbrev Takes : Signing → Option UpgradeProposal → Option UpgradeProposal → Type 0
  Takes c o o' = Life (get_upgrade_threshold s.governance) env.timestamp c o o'

  from_pending :
      (c : ℕ → Signing) (p : UpgradeProposal) (id : ℕ) (o : Option UpgradeProposal)
      → s.governance.proposal ≡ some p
      → not (p.id == id) ≡ false
      → Takes (c p.id) (some p) o
      → Takes (c id) s.governance.proposal o
  from_pending c p id o e same h =
      subst (λ (q : Option UpgradeProposal). Takes (c id) q o) (sym e)
        (subst (λ n. Takes (c n) (some p) o) (same_id p.id id same) h)

  from_none :
      (c : Signing) (o o' : Option UpgradeProposal)
      → is_some o ≡ false
      → Takes c none o'
      → Takes c o o'
  from_none c none o' e h = h
  from_none c (some p) o' e h = cc

  from_signature :
      (p : UpgradeProposal) (a : Address) (room : Bool)
      → ltb (length p.approvers) max_upgrade_signers ≡ room
      → NotIn a p.approvers
      → Takes
          (Signing.approve a p.id)
          (some p)
          (some (record p { approvers = if room then p.approvers ++ a ∷ [] else p.approvers }))
  from_signature p a true e h = Life.approved a p h (ground (arith, e))
  from_signature p a false e h = Life.overflowed a p h (ground (arith, e))

  pub enough :
      (p : UpgradeProposal)
      → lacks_approvals s.governance p ≡ false
      → get_upgrade_threshold s.governance ≤ length p.approvers
  unfolding lacks_approvals
  enough p h = ground (arith, h)

  -- Whenever a call of the multisig flow returns, the pending proposal made the step that the
  -- abstract life of a proposal has for that call. Where none was pending, proposing leaves a
  -- proposal of the caller for the given hash, with the caller as its only signer and due after
  -- the given delay. The other calls name the identifier of the pending proposal: an approval adds
  -- the caller, who had not signed, or changes nothing where twenty have signed; an execution
  -- removes the proposal, whose delay is over and which has as many signers as the threshold; a
  -- cancellation removes it.
  pub signing-Life :
      (c : Signing)
      → OnOk
          (λ s'.
            Life
              (get_upgrade_threshold s.governance)
              env.timestamp
              c
              s.governance.proposal
              s'.governance.proposal)
          (signing c env s)
  unfolding signing
  signing-Life (Signing.propose a h d) = Returns-OnOk (
      propose-Returns (Step (Signing.propose a h d)) a env s h d
        λ may free. from_none _ _ _ free (Life.proposed a h d _ refl refl refl refl refl))
  signing-Life (Signing.approve a id) = Returns-OnOk (
      approve-Returns (Step (Signing.approve a id)) a env s id λ may p e same new.
        from_pending (Signing.approve a) p id _ e same
          (from_signature p a _ refl (NotIn-has_approved a p.approvers new)))
  signing-Life (Signing.execute a id) = Returns-OnOk (
      execute-Returns _ a id env s λ may auth p e same due signers staged attested.
        deploy-deployed (Step (Signing.execute a id)) a env s p env.timestamp (
          from_pending (Signing.execute a) p id none e same
            (Life.executed a p (enough p signers) (ground (arith, due)))))
  signing-Life (Signing.cancel a id) = Returns-OnOk (
      cancel-Returns (Step (Signing.cancel a id)) a env s id
        λ p e same. from_pending (Signing.cancel a) p id none e same (Life.cancelled a p))
