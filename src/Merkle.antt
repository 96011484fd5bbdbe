-- ===== src/Merkle.antt =====
-- The Merkle root of an exported page (src/merkle.rs). SHA-256 and the text of an address are
-- functions of the host, and parameters here.
pub mod Total
pub mod Binding
pub mod Records
use Prim.Native.String.{String}
use Prim.Native.Char.{code}
use trustbridge_contract.Base.{
  ℕ, zero, suc, Bool, true, false, Option, none, some, List, [], ◌∷◌, ◌++◌, length, if◌then◌else◌,
}
use trustbridge_contract.Username.{Username}
use trustbridge_contract.Types.{Address, ContributorRecord}

-- The bytes of a digest.
abbrev pub Digest : Type 0
Digest = List ℕ

unfoldable pub ascii : String → List ℕ
ascii String.[] = []
ascii (String.◌∷◌ c s) = code c ∷ ascii s

-- `LEAF_DOMAIN`, `NODE_DOMAIN` and `FIELD_SEPARATOR`.
unfoldable pub leaf_domain : List ℕ
leaf_domain = ascii "trustbridge/export-leaf/v1:"

unfoldable pub node_domain : List ℕ
node_domain = ascii "trustbridge/export-node/v1:"

abbrev pub field_separator : ℕ
field_separator = 0

unfoldable pub zeros : ℕ → List ℕ
zeros zero = []
zeros (suc n) = 0 ∷ zeros n

unfoldable pub empty_root : Digest
unfolding zeros
empty_root = zeros 32

abbrev pub flag_byte : Bool → ℕ
flag_byte b = if b then 1 else 0

-- What is hashed for a leaf and for a node.
unfoldable pub leaf_bytes : Username → List ℕ → Bool → List ℕ
leaf_bytes username address verified =
    leaf_domain ++ (username ++ (field_separator ∷ (address ++ (flag_byte verified ∷ []))))

unfoldable pub node_bytes : Digest → Digest → List ℕ
node_bytes left right = node_domain ++ (left ++ right)

module _ (sha256 : List ℕ → Digest) where
  unfoldable pub leaf_hash : Username → List ℕ → Bool → Digest
  leaf_hash username address verified = sha256 (leaf_bytes username address verified)

  unfoldable pub node_hash : Digest → Digest → Digest
  node_hash left right = sha256 (node_bytes left right)

  -- One round of the loop: the next level, an odd last node unchanged.
  unfoldable pub next_level : List Digest → List Digest
  next_level [] = []
  next_level (x ∷ []) = x ∷ []
  next_level (x ∷ y ∷ rest) = node_hash x y ∷ next_level rest

  -- The loop over the levels, on fuel; `none` where the fuel is out.
  unfoldable pub climb : ℕ → List Digest → Option Digest
  climb fuel [] = none
  climb fuel (x ∷ []) = some x
  climb zero (x ∷ y ∷ rest) = none
  climb (suc fuel) (x ∷ y ∷ rest) = climb fuel (next_level (x ∷ y ∷ rest))

  -- As much fuel as there are leaves.
  unfoldable pub root_of : List Digest → Option Digest
  root_of [] = some empty_root
  root_of (x ∷ rest) = climb (length rest) (x ∷ rest)

  module _ (address_text : Address → List ℕ) where
    unfoldable pub leaves_of : List (Username × ContributorRecord) → List Digest
    leaves_of [] = []
    leaves_of ((u, c) ∷ rest) =
        leaf_hash u (address_text c.stellar_address) c.verified ∷ leaves_of rest

    unfoldable pub root_of_records : List (Username × ContributorRecord) → Option Digest
    root_of_records records = root_of (leaves_of records)
