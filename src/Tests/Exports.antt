-- ===== src/Tests/Exports.antt =====
-- Pages, cursors and Merkle roots at concrete states.
use trustbridge_contract.Base.{
  ℕ, zero, suc, ◌≡◌, ◌⊎◌, refl, false, none, some, List, [], ◌∷◌, ◌++◌, arith, length, take,
  length-append, Lacks,
}
use trustbridge_contract.Username.{Username}
use trustbridge_contract.Types.{ContributorRecord}
use trustbridge_contract.Registry.{remove_from_index}
use trustbridge_contract.Merkle.{
  Digest, zeros, root_of, root_of_records, leaves_of, climb, field_separator,
}
use trustbridge_contract.Merkle.Total.{root_of-climb}
use trustbridge_contract.Merkle.Binding.{Collision}
use trustbridge_contract.Merkle.Records.{entries, root_of_records-binds}
use trustbridge_contract.Paging.{with_records, encode_cursor, decode_cursor}
use trustbridge_contract.Paging.Cursor.{cursor-generation}
use trustbridge_contract.Paging.Slice.{length-take}
use trustbridge_contract.Contract.Guards.{network_mismatch}
use trustbridge_contract.Contract.Export.{get_public_paginated, get_registered_paginated_internal}
use trustbridge_contract.Contract.Export.Agree.{Agree, public-registered}
use trustbridge_contract.Contract.Export.Cover.{follow, follow-with_records}
use trustbridge_contract.Tests.{alice, at_1000, with_alice, alice_registry, alice_record}
use trustbridge_contract.Tests.Witnesses.{alice-Coherent}

public-registered_example :
    Agree at_1000.zero_address
      (get_public_paginated none 10 at_1000 with_alice).0
      (get_registered_paginated_internal none 10 at_1000 with_alice).0
public-registered_example =
    public-registered at_1000 with_alice alice-Coherent (omega arith) none 10

on_this_network : network_mismatch with_alice.control at_1000 ≡ false
unfolding network_mismatch
on_this_network = refl

follow-with_records_example :
    follow 2 at_1000 with_alice 1 none ≡ with_records alice_registry (alice ∷ [])
follow-with_records_example =
    follow-with_records at_1000 with_alice 1 refl on_this_network alice-Coherent (omega arith)
      (omega arith) 1 (omega arith)

cursor-generation_example :
    (decode_cursor alice_registry (encode_cursor alice_registry 1) ≡ some 1)
    × (decode_cursor (remove_from_index alice alice_registry) (encode_cursor alice_registry 1)
        ≡ none)
cursor-generation_example =
    cursor-generation alice alice_registry 1 (omega arith) (omega arith) (omega arith)

-- A hash of 32 bytes: the first ones of the text, filled up with zeros.
abbrev first_bytes : List ℕ → Digest
first_bytes text = take 32 (text ++ zeros 32)

length-zeros : (n : ℕ) → length (zeros n) ≡ n
unfolding zeros
length-zeros zero = refl
length-zeros (suc n) = omega (arith, length-zeros n)

length-first_bytes : (text : List ℕ) → length (first_bytes text) ≡ 32
length-first_bytes text =
    omega (arith, length-take 32 (text ++ zeros 32), length-append text (zeros 32), length-zeros 32)

abbrev three_leaves : List Digest
three_leaves = (1 ∷ []) ∷ (2 ∷ []) ∷ (3 ∷ []) ∷ []

root_of-climb_example :
    (root : Digest) × (root_of first_bytes three_leaves ≡ some root)
    × (climb first_bytes 2 three_leaves ≡ some root)
root_of-climb_example = root_of-climb first_bytes three_leaves 2 (omega arith) (λ e. cc)

abbrev page_of_alice : List (Username × ContributorRecord)
page_of_alice = (alice, alice_record) ∷ []

abbrev paid_elsewhere : List (Username × ContributorRecord)
paid_elsewhere = (alice, record alice_record { payout_address = 10 }) ∷ []

no_separator : Lacks field_separator alice
no_separator = omega arith

same_root :
    root_of_records first_bytes at_1000.address_text page_of_alice
    ≡ root_of_records first_bytes at_1000.address_text paid_elsewhere
unfolding root_of_records leaves_of
same_root = refl

root_of_records-binds_example :
    (entries at_1000.address_text page_of_alice ≡ entries at_1000.address_text paid_elsewhere)
    ⊎ Collision first_bytes
root_of_records-binds_example =
    root_of_records-binds first_bytes at_1000.address_text length-first_bytes page_of_alice
      paid_elsewhere (no_separator, tt) (no_separator, tt) refl same_root
