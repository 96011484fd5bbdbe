-- ===== src/Oracle.antt =====
-- Ownership proofs of an oracle (src/oracle_proof.rs): the message, and what is checked before the
-- signature.
pub mod Digits
pub mod Message
use trustbridge_contract.Base.{
  ℕ, zero, suc, ◌+◌, ◌/◌, ◌%◌, ◌*◌, Bool, true, false, not, ◌&&◌, ◌||◌, Option, none, some, List,
  [], ◌∷◌, ◌++◌, ⊤, ltb, ◌==◌, if◌then◌else◌, bytes_eq, get_elem?,
}
use trustbridge_contract.Types.{Hash}

pub record OracleProof : Type 0 where
  pub oracle_pubkey : Hash
  pub message : List ℕ
  pub signature : List ℕ
  pub expires_at : ℕ

-- The loop that writes the digits from the right, with the free places of the buffer: `none` is
-- the abort where no place is left.
unfoldable pub write_digits : ℕ → ℕ → List ℕ → Option (List ℕ)
write_digits zero n written = none
write_digits (suc places) n written =
    let now = (48 + n % 10) ∷ written in
    let rest = write_digits places (n / 10) now in if n / 10 == 0 then some now else rest

abbrev pub colon : ℕ
colon = 58

-- The name, the text of the address and the expiry, with a colon between.
unfoldable pub ownership_message : List ℕ → List ℕ → ℕ → Option (List ℕ)
ownership_message github_username stellar_address expires_at =
    elim (write_digits 20 expires_at []) [
      | none ↦ none
      | some digits ↦ some (github_username ++ (colon ∷ (stellar_address ++ (colon ∷ digits))))
    ]

unfoldable pub is_zero_signature : List ℕ → Bool
is_zero_signature [] = true
is_zero_signature (b ∷ bs) = b == 0 && is_zero_signature bs

-- `bytes[63] & 0xE0 == 0`: the three high bits of the last byte.
unfoldable pub is_valid_signature_shape : List ℕ → Bool
is_valid_signature_shape sig = elim (get_elem? sig 63) [ none ↦ false | some b ↦ (b / 32) % 8 == 0 ]

-- `allowlist.contains`.
unfoldable pub lists_key : Hash → List Hash → Bool
lists_key k [] = false
lists_key k (h ∷ hs) = h == k || lists_key k hs

abbrev pub is_empty : List ℕ → Bool
is_empty [] = true
is_empty (b ∷ bs) = false
