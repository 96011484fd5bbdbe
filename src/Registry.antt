-- ===== src/Registry.antt =====
-- The registration entries of src/storage.rs: records, counters, the flat and the chunked index.
pub mod Chunks
pub mod Verified
pub mod Coherent
pub mod Repair
use trustbridge_contract.Base.{
  ℕ, zero, suc, ◌+◌, ◌-◌, ◌≡◌, Bool, true, false, not, ◌&&◌, ◌||◌, Option, none, some, List, [],
  ◌∷◌, ◌++◌, length, ltb, leb, ◌==◌, if◌then◌else◌, bytes_eq, min, saturating_add_u32,
  wrapping_add_u32, is_some,
}
use trustbridge_contract.Username.{Username, canonicalize_username}
use trustbridge_contract.NameList.{mentions, without}
use trustbridge_contract.Types.{ContributorRecord, RepairReport}
use trustbridge_contract.Types.State.{Registry, put_name, put_id}

-- `canon`.
abbrev pub canon : Username → Username
canon = canonicalize_username

-- `CHUNK_SIZE`.
abbrev pub chunk_size : ℕ
chunk_size = 50

unfoldable pub get_record : Registry → Username → Option ContributorRecord
get_record r u = r.records (canon u)

unfoldable pub set_record : Username → ContributorRecord → Registry → Registry
set_record u c r = record r { records = put_name (canon u) (some c) r.records }

-- The `remove` of the record's key in `remove_record`, whose other write is to the names.
unfoldable pub erase_record : Username → Registry → Registry
erase_record u r = record r { records = put_name (canon u) none r.records }

-- `has_record` reads the key as it is given.
unfoldable pub has_record : Registry → Username → Bool
has_record r u = is_some (r.records u)

abbrev pub set_count : ℕ → Registry → Registry
set_count n r = record r { count = n }

abbrev pub set_verified_count : ℕ → Registry → Registry
set_verified_count n r = record r { verified_count = n }

unfoldable pub get_ever_verified_count : Registry → ℕ
get_ever_verified_count r = elim r.ever_verified_count [ some n ↦ n | none ↦ r.verified_count ]

unfoldable pub bump_ever_verified_count : Registry → Registry
bump_ever_verified_count r = record r {
  ever_verified_count = some (saturating_add_u32 (get_ever_verified_count r) 1);
}

unfoldable pub add_to_index : Username → Registry → Registry
add_to_index u r =
    let name = canon u in
    let last = r.chunks (r.chunk_count - 1) in
    if r.chunk_count == 0
    then record r {
      index = r.index ++ name ∷ [];
      chunks = put_id 0 (name ∷ []) r.chunks;
      chunk_count = 1;
    }
    else if leb chunk_size (length last)
    then record r {
      index = r.index ++ name ∷ [];
      chunks = put_id r.chunk_count (name ∷ []) r.chunks;
      chunk_count = r.chunk_count + 1;
    }
    else record r {
      index = r.index ++ name ∷ [];
      chunks = put_id (r.chunk_count - 1) (last ++ name ∷ []) r.chunks;
    }

-- The loop over the chunks in `remove_from_index`: `n` chunks are left, from number `c`. It
-- rewrites the first chunk that holds the name, and stops there.
unfoldable pub remove_from_chunks : Username → ℕ → ℕ → (ℕ → List Username) → ℕ → List Username
remove_from_chunks t zero c chunks = chunks
remove_from_chunks t (suc n) c chunks =
    let rest = remove_from_chunks t n (c + 1) chunks in
    if mentions t (chunks c) then put_id c (without t (chunks c)) chunks else rest

unfoldable pub remove_from_index : Username → Registry → Registry
remove_from_index u r = record r {
  index = without (canon u) r.index;
  index_generation = wrapping_add_u32 r.index_generation 1;
  chunks = remove_from_chunks (canon u) r.chunk_count 0 r.chunks;
}

-- The loop of `compact_chunked_index`: the chunk that grows, the number of the next one, and what
-- is written.
unfoldable pub write_chunks :
    List Username → List Username → ℕ → (ℕ → List Username) → (ℕ → List Username) × ℕ
write_chunks [] [] c chunks = (chunks, c)
write_chunks [] (v ∷ vs) c chunks = (put_id c (v ∷ vs) chunks, c + 1)
write_chunks (u ∷ us) current c chunks = elim (leb chunk_size (length (current ++ u ∷ []))) [
  | true ↦ write_chunks us [] (c + 1) (put_id c (current ++ u ∷ []) chunks)
  | false ↦ write_chunks us (current ++ u ∷ []) c chunks
]

-- The loop that drops the stale chunks: `n` of them, from number `c`.
unfoldable pub drop_stale : ℕ → ℕ → (ℕ → List Username) → ℕ → List Username
drop_stale zero c chunks = chunks
drop_stale (suc n) c chunks = drop_stale n (c + 1) (put_id c [] chunks)

unfoldable pub compact_chunked_index : Registry → Registry
compact_chunked_index r =
    let (chunks, written) = write_chunks r.index [] 0 r.chunks in
    record r { chunks = drop_stale (r.chunk_count - written) written chunks; chunk_count = written }

-- The loop of `repair_index`: the records of the index, and the verified ones among them.
unfoldable pub recount : Registry → List Username → ℕ × ℕ → ℕ × ℕ
recount r [] t = t
recount r (u ∷ us) (n, v) = recount r us (elim (get_record r u) [
  | none ↦ (n, v)
  | some c ↦ (saturating_add_u32 n 1, if c.verified then saturating_add_u32 v 1 else v)
])

abbrev pub drifts : Registry → ℕ × ℕ → Bool
drifts r (n, v) = not (r.count == n) || not (r.verified_count == v)

unfoldable pub repair_index : Bool → Registry → RepairReport × Registry
repair_index apply r =
    let (n, v) = recount r r.index (0, 0) in
    let applied = apply && drifts r (n, v) in
    (
      record {
        stored_count = r.count;
        recomputed_count = n;
        stored_verified = r.verified_count;
        recomputed_verified = v;
        drifted = drifts r (n, v);
        applied = applied;
      },
      if applied then set_verified_count v (set_count n r) else r,
    )
