-- ===== src/Contract/Oracle/Effect.antt =====
-- What `verify_with_oracle_proof` asks for, and what it does to the registry.
use trustbridge_contract.Base.{
  ℕ, suc, ap, sym, ◌∙◌, get_elem?, Bool-cases, ==_iff, bytes_eq_refl, [], ◌∷◌, ◌≡◌, ◌≤◌, ◌⊎◌, inl,
  inr, refl, Bool, Option, none, some, List, true, false, not, ◌&&◌, ⊤, arith, ltb, ◌==◌, bytes_eq,
  bytes_eq_iff, u32_max, if◌then◌else◌,
}
use trustbridge_contract.Username.{Username}
use trustbridge_contract.Types.{Address, ContributorRecord, Hash}
use trustbridge_contract.Types.State.{State, Registry}
use trustbridge_contract.Registry.{get_record, set_record, canon, bump_ever_verified_count}
use trustbridge_contract.Registry.Coherent.{Coherent}
use trustbridge_contract.Oracle.{OracleProof, ownership_message, lists_key}
use trustbridge_contract.Contract.Monad.{Env, M, ok, trap, continue, ◌>>=◌, invoke}
use trustbridge_contract.Contract.Rules.{OnOk, Returns, Returns-OnOk, steps, after_invoke, end}
use trustbridge_contract.Contract.Writes.{writes, write_nested}
use trustbridge_contract.Contract.Guards.Same.{checks}
use trustbridge_contract.Contract.Verify.{mark_verified, count_up}
use trustbridge_contract.Contract.Verify.Effect.{mark_verified-Coherent, marked-Coherent}
use trustbridge_contract.Contract.Oracle.{
  verify_with_oracle_proof, verify_ownership_proof, verify_with_proof, ed25519_verify,
  expected_message,
}

signature_OnOk :
    {B : Type 0} (Q : State → Type 0) (env : Env) (b : Bool) (f : ⊤ → M B) (s : State)
    → (b ≡ true → Returns Q (f tt) env s)
    → OnOk Q (continue f env (if b then ok tt else trap, s))
unfolding continue
signature_OnOk Q env true f s h = Returns-OnOk (h refl)
signature_OnOk Q env false f s h = tt

message_OnOk :
    {B : Type 0} (Q : State → Type 0) (env : Env) (o : Option (List ℕ)) (f : List ℕ → M B)
    (s : State)
    → ((m : List ℕ) → o ≡ some m → Returns Q (f m) env s)
    → OnOk Q (continue f env (elim o [ none ↦ trap | some m ↦ ok m ], s))
unfolding continue
message_OnOk Q env none f s h = tt
message_OnOk Q env (some m) f s h = Returns-OnOk (h m refl)

module _ {B : Type 0} {Q : State → Type 0} {env : Env} {s : State} where
  step_signature :
      (p : OracleProof) (f : ⊤ → M B)
      → (env.ed25519_verify p.oracle_pubkey p.message p.signature ≡ true → Returns Q (f tt) env s)
      → Returns Q (ed25519_verify p >>= f) env s
  unfolding ed25519_verify ◌>>=◌
  step_signature p f h = end (signature_OnOk Q env _ f s h)

  step_message :
      (u : Username) (a : Address) (n : ℕ) (f : List ℕ → M B)
      → ((m : List ℕ) → ownership_message u (env.address_text a) n ≡ some m → Returns Q (f m) env s)
      → Returns Q (expected_message u a n >>= f) env s
  unfolding expected_message ◌>>=◌
  step_message u a n f h = end (message_OnOk Q env _ f s h)

oracle-Returns :
    (Q : State → Type 0) (u : Username) (p : OracleProof) (env : Env) (s : State)
    → ((c : ContributorRecord) (m : List ℕ)
        → get_record s.registry u ≡ some c
        → env.authorized c.stellar_address ≡ true
        → ownership_message u (env.address_text c.stellar_address) p.expires_at ≡ some m
        → not (bytes_eq p.message m) ≡ false
        → not (lists_key p.oracle_pubkey s.access.oracle_allowlist) ≡ false
        → (not (p.expires_at == 0) && ltb p.expires_at env.timestamp) ≡ false
        → env.ed25519_verify p.oracle_pubkey p.message p.signature ≡ true
        → Returns Q (mark_verified u c c.stellar_address) env s)
    → Returns Q (verify_with_oracle_proof u p) env s
unfolding verify_with_oracle_proof verify_ownership_proof verify_with_proof
oracle-Returns Q u p env s h =
    search (steps, checks, write_nested, step_signature, step_message) depth 60

-- A key that the check finds stands somewhere on the list.
listed_at :
    (k : Hash) (hs : List Hash) → lists_key k hs ≡ true → (i : ℕ) × (get_elem? hs i ≡ some k)
unfolding lists_key
listed_at k [] h = cc
listed_at k (x ∷ hs) h = elim (Bool-cases (x == k)) [
  | inl here ↦ (0, ap some ((==_iff x k).0 here))
  | inr later ↦ let (i, e) = listed_at k hs (ground (arith, h, later)) in (suc i, e)
]

-- What a verification by proof had to have.
pub record Proven (u : Username) (p : OracleProof) (c : ContributorRecord) (env : Env) (s : State)
    : Type 0 where
  pub stored : get_record s.registry u ≡ some c
  pub authorized : env.authorized c.stellar_address ≡ true
  pub message :
      ownership_message u (env.address_text c.stellar_address) p.expires_at ≡ some p.message
  pub key : (i : ℕ) × (get_elem? s.access.oracle_allowlist i ≡ some p.oracle_pubkey)
  pub in_time : (p.expires_at ≡ 0) ⊎ (env.timestamp ≤ p.expires_at)
  pub signed : env.ed25519_verify p.oracle_pubkey p.message p.signature ≡ true

in_time_cases : (n now : ℕ) → (not (n == 0) && ltb n now) ≡ false → (n ≡ 0) ⊎ (now ≤ n)
in_time_cases n now h = elim (Bool-cases (n == 0)) [
  | inl none_set ↦ inl ((==_iff n 0).0 none_set)
  | inr some_set ↦ inr (ground arith)
]

marked :
    (P : Registry → Type 0) (u : Username) (c : ContributorRecord) (actor : Address) (env : Env)
    (s : State)
    → P (count_up c (set_record u (record c { verified = true }) s.registry))
    → Returns (λ s'. P s'.registry) (mark_verified u c actor) env s
unfolding mark_verified
marked P u c actor env s h = search (writes, steps) depth 40

get_record-marked :
    (u : Username) (c c' : ContributorRecord) (r : Registry)
    → get_record (count_up c (set_record u c' r)) u ≡ some c'
unfolding get_record set_record bump_ever_verified_count
get_record-marked u c c' r = ground (arith, bytes_eq_refl (canon u))

-- When `verify_with_oracle_proof` returns, the name had a record whose address had authorized the
-- call, the key of the proof is on the oracle list, the proof has no expiry or has not expired,
-- the signature of its message verifies under that key, and the message is the one that names this
-- user, this address and this expiry; afterwards the record is the same but verified.
pub oracle_proof-Proven :
    (u : Username) (p : OracleProof) (env : Env) (s : State)
    → OnOk
        (λ s'.
          (c : ContributorRecord) × Proven u p c env s
          × (get_record s'.registry u ≡ some (record c { verified = true })))
        (verify_with_oracle_proof u p env s)
oracle_proof-Proven u p env s = Returns-OnOk (
    oracle-Returns _ u p env s λ c m stored auth is_message same listed in_time signed.
      let is : p.message ≡ m = (bytes_eq_iff p.message m).0 (ground (arith, same)) in
      marked
        (λ r.
          (c : ContributorRecord) × Proven u p c env s
          × (get_record r u ≡ some (record c { verified = true })))
        u c c.stellar_address env s
        (
          c,
          record {
            stored = stored;
            authorized = auth;
            message = is_message ∙ ap some (sym is);
            key = listed_at p.oracle_pubkey s.access.oracle_allowlist (ground (arith, listed));
            in_time = in_time_cases p.expires_at env.timestamp in_time;
            signed = signed;
          },
          get_record-marked u c (record c { verified = true }) s.registry,
        ))

pub verify_with_oracle_proof-Coherent :
    (u : Username) (p : OracleProof) (env : Env) (s : State)
    → Coherent s.registry
    → s.registry.count ≤ u32_max
    → Coherent (invoke (verify_with_oracle_proof u p) env s).registry
unfolding invoke
verify_with_oracle_proof-Coherent u p env s h fits =
    after_invoke (λ s'. Coherent s'.registry) (verify_with_oracle_proof u p) env s h
      (oracle-Returns _ u p env s λ c m e _ _ _ _ _ _.
        mark_verified-Coherent u c c.stellar_address env s
          (marked-Coherent u c s.registry h fits e))
