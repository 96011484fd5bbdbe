-- ===== src/Contract/Upgrade/Effect.antt =====
-- What `upgrade` asks for, and what it does to the governance entries.
use trustbridge_contract.Base.{
  ℕ, ⊤, ◌≡◌, ◌≢◌, ◌≤◌, Bool, Option, none, some, true, false, if◌then◌else◌, saturating_add_u64,
}
use trustbridge_contract.Types.{Address, Hash, WasmAttestation}
use trustbridge_contract.Types.State.{State, Governance}
use trustbridge_contract.Contract.Monad.{Env, ok, trap, M, continue, ◌>>=◌, actions}
use trustbridge_contract.Contract.Rules.{OnOk, Returns, Returns-OnOk, end}
use trustbridge_contract.Contract.Upgrade.{
  update_current_contract_wasm, provenance_of, drop_if_lapsed,
}

abbrev pub run_code : Hash → Governance → Governance
run_code h g = record g { current_wasm = h }

wasm_OnOk :
    {B : Type 0} (Q : State → Type 0) (env : Env) (b : Bool) (f : ⊤ → M B) (s s' : State)
    → Returns Q (f tt) env s'
    → OnOk Q (continue f env (if b then (ok tt, s') else (trap, s)))
unfolding continue
wasm_OnOk Q env true f s s' h = Returns-OnOk h
wasm_OnOk Q env false f s s' h = tt

module _ {B : Type 0} {Q : State → Type 0} {env : Env} {s : State} where
  pub write_wasm :
      (h : Hash) (f : ⊤ → M B)
      → Returns Q (f tt) env (record s { governance = run_code h s.governance })
      → Returns Q (update_current_contract_wasm h >>= f) env s
  unfolding update_current_contract_wasm ◌>>=◌
  write_wasm h f k = end (wasm_OnOk Q env (env.uploaded h) f s _ k)

  lapsed_OnOk :
      (b : Bool) (f : ⊤ → M B)
      → (b ≡ false → Returns Q (f tt) env s)
      → OnOk Q ((drop_if_lapsed b >>= f) env s)
  unfolding drop_if_lapsed actions
  lapsed_OnOk true f h = tt
  lapsed_OnOk false f h = Returns-OnOk (h (λ i. false))

  pub step_lapsed :
      (b : Bool) (f : ⊤ → M B)
      → (b ≡ false → Returns Q (f tt) env s)
      → Returns Q (drop_if_lapsed b >>= f) env s
  step_lapsed b f h = end (lapsed_OnOk b f h)

-- An attestation lets the hash through: a live one names it, and without one none is required.
abbrev pub LetsThrough : Option WasmAttestation → Bool → Hash → ℕ → Type 0
LetsThrough none required h now = required ≡ false
LetsThrough (some a) required h now = (a.wasm_hash ≡ h) × (now ≤ a.expires_at)

-- The governance entries after the deployment of a hash.
abbrev pub deployed : Address → Hash → Bool → ℕ → Governance → Governance
deployed by h attested now g = record g {
  provenance = some (provenance_of by h attested now g);
  current_wasm = h;
  last_upgrade = some now;
}

-- What a caller of `upgrade` had to have.
pub record Upgradable (admin : Address) (h : Hash) (env : Env) (s : State) : Type 0 where
  pub by_admin : s.control.admin ≡ some admin
  pub authorized : env.authorized admin ≡ true
  pub cooled :
      (t : ℕ)
      → s.governance.last_upgrade ≡ some t
      → s.governance.cooldown ≢ 0
      → saturating_add_u64 t s.governance.cooldown ≤ env.timestamp
  pub let_through :
      LetsThrough s.governance.attestation s.governance.attestation_required h env.timestamp
