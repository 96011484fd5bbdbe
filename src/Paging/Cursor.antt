-- ===== src/Paging/Cursor.antt =====
-- A cursor reads back in the generation that it was issued in, and in no other.
use trustbridge_contract.Base.{ℕ, ◌≤◌, ◌≡◌, ◌≢◌, none, some, arith, u32_max, wrapping_add_u32}
use trustbridge_contract.Username.{Username}
use trustbridge_contract.Types.State.{Registry}
use trustbridge_contract.Registry.{remove_from_index}
use trustbridge_contract.Paging.{to_be_bytes, from_be_bytes, encode_cursor, decode_cursor}

pub from_be-to_be : (n : ℕ) → n ≤ u32_max → from_be_bytes (to_be_bytes n) ≡ n
from_be-to_be n h = omega arith

pub decode-encode :
    (r : Registry) (offset : ℕ)
    → r.index_generation ≤ u32_max
    → r.count ≤ u32_max
    → offset ≤ r.count
    → decode_cursor r (encode_cursor r offset) ≡ some offset
unfolding decode_cursor encode_cursor
decode-encode r offset g k h =
    rw (from_be-to_be r.index_generation g, from_be-to_be offset (omega arith)) (ground arith)

other_generation : (g : ℕ) → g ≤ u32_max → g ≢ wrapping_add_u32 g 1
other_generation g h e = omega (arith, e)

decode-removed :
    (u : Username) (r : Registry) (offset : ℕ)
    → r.index_generation ≤ u32_max
    → decode_cursor (remove_from_index u r) (encode_cursor r offset) ≡ none
unfolding decode_cursor encode_cursor remove_from_index
decode-removed u r offset g =
    rw (from_be-to_be r.index_generation g) (ground (arith, other_generation r.index_generation g))

-- A cursor to an offset within the count reads back as that offset, and is refused once a name has
-- been removed from the index. The generation and the count fit u32.
pub cursor-generation :
    (u : Username) (r : Registry) (offset : ℕ)
    → r.index_generation ≤ u32_max
    → r.count ≤ u32_max
    → offset ≤ r.count
    → (decode_cursor r (encode_cursor r offset) ≡ some offset)
      × (decode_cursor (remove_from_index u r) (encode_cursor r offset) ≡ none)
cursor-generation u r offset g k h = (decode-encode r offset g k h, decode-removed u r offset g)
