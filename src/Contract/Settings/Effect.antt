-- ===== src/Contract/Settings/Effect.antt =====
-- The verification configuration is written once, and pruning changes nobody's standing.
use trustbridge_contract.Base.{
  ℕ, ⊤, ◌≡◌, ◌≢◌, ◌≤◌, refl, Option, none, some, true, false, not, List, [], ◌∷◌, arith, ◌==◌,
  is_some,
}
use trustbridge_contract.Types.{Address, Symbol, VerifierAllowEntry}
use trustbridge_contract.Types.State.{State, Access, Audit, Outbox}
use trustbridge_contract.Access.{
  get_allowlist, prune_expired_verifiers, live_entries, is_active_verifier,
}
use trustbridge_contract.Contract.Monad.{Env}
use trustbridge_contract.Contract.Rules.{OnOk, Returns, Returns-OnOk, steps}
use trustbridge_contract.Contract.Writes.{writes}
use trustbridge_contract.Contract.Guards.Same.{checks, step_refuse}
use trustbridge_contract.Contract.Settings.{config_verification, prune_allowlist}

-- The address of no entry.
abbrev pub Unlisted : Address → List VerifierAllowEntry → Type 0
Unlisted a [] = ⊤
Unlisted a (e ∷ es) = (e.address ≢ a) × Unlisted a es

-- No address has two entries.
abbrev pub OneEach : List VerifierAllowEntry → Type 0
OneEach [] = ⊤
OneEach (e ∷ es) = Unlisted e.address es × OneEach es

Unlisted-inactive :
    (a : Address) (t : ℕ) (es : List VerifierAllowEntry)
    → Unlisted a es
    → is_active_verifier a t es ≡ false
unfolding is_active_verifier
Unlisted-inactive a t [] h = refl
Unlisted-inactive a t (e ∷ es) h = ground (arith, h.0, Unlisted-inactive a t es h.1)

live-is_active :
    (now t : ℕ) (a : Address) (es : List VerifierAllowEntry)
    → OneEach es
    → now ≤ t
    → is_active_verifier a t (live_entries now es) ≡ is_active_verifier a t es
unfolding is_active_verifier live_entries
live-is_active now t a [] h l = refl
live-is_active now t a (e ∷ es) h l =
    ground (arith, live-is_active now t a es h.1 l, Unlisted-inactive e.address t es h.0)

pruned-is_active :
    (now t : ℕ) (a : Address) (x : Access)
    → OneEach (get_allowlist x)
    → now ≤ t
    → is_active_verifier a t (get_allowlist (prune_expired_verifiers now x))
      ≡ is_active_verifier a t (get_allowlist x)
unfolding prune_expired_verifiers
pruned-is_active now t a x h l = ground (arith, live-is_active now t a (get_allowlist x) h l)

pruned_Returns :
    (P : Access → Type 0) (env : Env) (s : State)
    → P (prune_expired_verifiers env.timestamp s.access)
    → Returns (λ s'. P s'.access) prune_allowlist env s
unfolding prune_allowlist
pruned_Returns P env s h = search (steps, checks, writes) depth 40

pub prune-is_active :
    (a : Address) (t : ℕ) (env : Env) (s : State)
    → OneEach (get_allowlist s.access)
    → env.timestamp ≤ t
    → OnOk
        (λ s'.
          is_active_verifier a t (get_allowlist s'.access)
          ≡ is_active_verifier a t (get_allowlist s.access))
        (prune_allowlist env s)
unfolding prune_allowlist
prune-is_active a t env s h l = Returns-OnOk (
    pruned_Returns
      (λ x.
        is_active_verifier a t (get_allowlist x) ≡ is_active_verifier a t (get_allowlist s.access))
      env s (pruned-is_active env.timestamp t a s.access h l))

config-Returns :
    (Q : State → Type 0) (caller : Address) (attestation : Symbol) (expires_in threshold : ℕ)
    (env : Env) (s : State)
    → ((admin : Address)
        → s.control.admin ≡ some admin
        → env.authorized caller ≡ true
        → not (caller == admin) ≡ false
        → is_some s.names.verification_config ≡ false
        → (a : Audit) (o : Outbox)
        → Q (record s {
          names = record (s.names) {
            verification_config = some (record {
              attestation = attestation;
              expires_in = expires_in;
              threshold = threshold;
            });
          };
          audit = a;
          outbox = o;
        }))
    → Returns Q (config_verification caller attestation expires_in threshold) env s
unfolding config_verification
config-Returns Q caller attestation expires_in threshold env s k =
    search (steps, checks, step_refuse, writes) depth 60

not_set : {A : Type 0} (o : Option A) → is_some o ≡ false → o ≡ none
not_set none h = refl
not_set (some a) h = cc

pub config_verification-once :
    (caller : Address) (attestation : Symbol) (expires_in threshold : ℕ) (env : Env) (s : State)
    → OnOk
        (λ s'.
          (s.names.verification_config ≡ none)
          × (s.control.admin ≡ some caller)
          × (env.authorized caller ≡ true)
          × (s'.names ≡ record (s.names) {
            verification_config = some (record {
              attestation = attestation;
              expires_in = expires_in;
              threshold = threshold;
            });
          }))
        (config_verification caller attestation expires_in threshold env s)
config_verification-once caller attestation expires_in threshold env s = Returns-OnOk (
    config-Returns _ caller attestation expires_in threshold env s
      λ admin stored auth same unset a o.
        (not_set _ unset, ground (arith, stored, same), auth, refl))
