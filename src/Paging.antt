-- ===== src/Paging.antt =====
-- Pages of the registry (src/storage.rs): limits, slices of the flat index, cursors, and the walk
-- over the chunks.
pub mod Cursor
pub mod Slice
pub mod Walk
use trustbridge_contract.Base.{
  ℕ, zero, suc, ◌+◌, ◌-◌, ◌*◌, ◌/◌, ◌%◌, Bool, true, false, not, ◌&&◌, Option, none, some, List, [],
  ◌∷◌, ◌++◌, length, get_elem?, ltb, leb, ◌==◌, if◌then◌else◌, min, saturating_add_u32,
}
use trustbridge_contract.Error.{ContractError}
use trustbridge_contract.Username.{Username}
use trustbridge_contract.Types.{Address, ContributorRecord}
use trustbridge_contract.Types.State.{Registry}
use trustbridge_contract.Registry.{get_record}

-- `DEFAULT_PAGE_LIMIT` and `MAX_PAGE_LIMIT`.
abbrev pub default_page_limit : ℕ
default_page_limit = 20

abbrev pub max_page_limit : ℕ
max_page_limit = 100

abbrev pub effective_limit : ℕ → ℕ
effective_limit limit = if limit == 0 then default_page_limit else min limit max_page_limit

-- `for i in offset..end`: so many places from one on; a place past the end is skipped.
unfoldable pub places {ℓ} : {A : Type ℓ} → ℕ → ℕ → List A → List A
places zero i index = []
places (suc n) i index =
    let rest = places n (i + 1) index in
    elim (get_elem? index i) [ none ↦ rest | some u ↦ u ∷ rest ]

-- The end of a page of so many entries.
abbrev pub page_end {ℓ} : {A : Type ℓ} → ℕ → ℕ → List A → ℕ
page_end offset limit index = min (saturating_add_u32 offset limit) (length index)

unfoldable pub get_index_page : Registry → ℕ → ℕ → List Username
get_index_page r offset limit =
    if leb (length r.index) offset
    then []
    else places (page_end offset (effective_limit limit) r.index - offset) offset r.index

-- The loops that read the records of a page; a name without one is skipped.
unfoldable pub with_records : Registry → List Username → List (Username × ContributorRecord)
with_records r [] = []
with_records r (u ∷ us) = elim (get_record r u) [
  | none ↦ with_records r us
  | some c ↦ (u, c) ∷ with_records r us
]

unfoldable pub with_addresses : Registry → List Username → List (Username × Address)
with_addresses r [] = []
with_addresses r (u ∷ us) = elim (get_record r u) [
  | none ↦ with_addresses r us
  | some c ↦ (u, c.stellar_address) ∷ with_addresses r us
]

-- Four bytes, the highest first: `to_be_bytes` and `from_be_bytes` of u32.
abbrev pub Word : Type 0
Word = ℕ × ℕ × ℕ × ℕ

abbrev pub to_be_bytes : ℕ → Word
to_be_bytes n = (n / 16777216 % 256, n / 65536 % 256, n / 256 % 256, n % 256)

abbrev pub from_be_bytes : Word → ℕ
from_be_bytes (a, b, c, d) = a * 16777216 + b * 65536 + c * 256 + d

-- `BytesN<8>`: the offset, then the generation.
abbrev pub CursorBytes : Type 0
CursorBytes = Word × Word

unfoldable pub encode_cursor : Registry → ℕ → CursorBytes
encode_cursor r offset = (to_be_bytes offset, to_be_bytes r.index_generation)

-- `none` is the refusal `InvalidCursor`.
unfoldable pub decode_cursor : Registry → CursorBytes → Option ℕ
decode_cursor r (offset, generation) =
    if not (from_be_bytes generation == r.index_generation)
    then none
    else if ltb r.count (from_be_bytes offset)
    then none
    else some (from_be_bytes offset)

-- `public_record_view`: the addresses of an unverified record are blanked.
unfoldable pub public_record_view : Address → ContributorRecord → ContributorRecord
public_record_view zero_address c =
    if c.verified
    then c
    else record c { stellar_address = zero_address; payout_address = zero_address }

-- The walk over the chunks: the entries passed, those taken, and where the loops were left.
pub record Walking : Type 0 where
  pub seen : ℕ
  pub records : List (Username × ContributorRecord)
  pub left_at : Option ℕ

module _ (view : ContributorRecord → ContributorRecord) (r : Registry) (offset limit : ℕ) where
  -- An entry is taken from the offset on, while there is room.
  unfoldable pub pick : Username → Walking → List (Username × ContributorRecord)
  pick u w =
      if leb offset w.seen && ltb (length w.records) limit
      then elim (get_record r u) [ none ↦ w.records | some c ↦ w.records ++ (u, view c) ∷ [] ]
      else w.records

  -- One round of the inner loop, which leaves both loops with the page full.
  unfoldable pub visit : Username → Walking → Walking
  unfolding pick
  visit u w =
      let seen = saturating_add_u32 w.seen 1 in
      let records = pick u w in
      record {
        seen = seen;
        records = records;
        left_at = if leb limit (length records) then some seen else none;
      }

  unfoldable pub walk_chunk : List Username → Walking → Walking
  walk_chunk [] w = w
  walk_chunk (u ∷ us) w = walk_chunk us (elim w.left_at [ none ↦ visit u w | some e ↦ w ])

  -- So many chunks from one on.
  unfoldable pub walk_chunks : ℕ → ℕ → Walking → Walking
  walk_chunks zero c w = w
  walk_chunks (suc n) c w =
      walk_chunks n (c + 1) (elim w.left_at [ none ↦ walk_chunk (r.chunks c) w | some e ↦ w ])

abbrev pub nothing_seen : Walking
nothing_seen = record { seen = 0; records = []; left_at = none }

-- `end` after the loops, which started at the offset.
abbrev pub walk_end : ℕ → ℕ → Walking → ℕ
walk_end offset limit w =
    if ltb (length w.records) limit then w.seen else elim w.left_at [ none ↦ offset | some e ↦ e ]
