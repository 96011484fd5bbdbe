-- ===== src/Registry/Coherent.antt =====
-- The registry's invariant: records, counters and both indexes tell one story. Each write that
-- the entry points make keeps it.
use trustbridge_contract.Base.{
  ℕ, ◌+◌, ◌-◌, ◌≡◌, ◌≤◌, ◌<◌, ◌∙◌, sym, ap, true, false, none, some, List, [], ◌∷◌, ◌++◌, arith, ⊤,
  length, bytes_eq, bytes_eq_iff, bytes_eq_refl, Bool-cases, inl, inr, is_some, ◌==◌, leb,
  saturating_add_u32, u32_max, ==_iff,
}
use trustbridge_contract.Username.{Username}
use trustbridge_contract.Username.Canonical.{canonicalize-canonicalize}
use trustbridge_contract.NameList.{
  mentions, without, Distinct, mentions-append, mentions-without, Distinct-without, Distinct-snoc,
  length-without,
}
use trustbridge_contract.Types.{ContributorRecord}
use trustbridge_contract.Types.State.{Registry, put_name}
use trustbridge_contract.Registry.{
  canon, get_record, set_record, erase_record, add_to_index, remove_from_index, set_count,
  chunk_size, set_verified_count,
}
use trustbridge_contract.Registry.Chunks.{joined, joined-put_new, joined-put_last, joined-remove}
use trustbridge_contract.Registry.Verified.{
  one_if_verified, count_verified, count_verified-le, count_verified_single, count_verified-append,
  count_verified-put_absent, count_verified-put, count_verified-without,
}
use trustbridge_contract.Base.{length-append}

-- Every name of the list is its own storage key.
abbrev pub AllCanonical : List Username → Type 0
AllCanonical [] = ⊤
AllCanonical (u ∷ us) = (canon u ≡ u) × AllCanonical us

pub AllCanonical-append :
    (us vs : List Username) → AllCanonical us → AllCanonical vs → AllCanonical (us ++ vs)
AllCanonical-append [] vs h k = k
AllCanonical-append (u ∷ us) vs h k = (h.0, AllCanonical-append us vs h.1 k)

pub AllCanonical-without :
    (t : Username) (us : List Username) → AllCanonical us → AllCanonical (without t us)
unfolding without
AllCanonical-without t [] h = tt
AllCanonical-without t (u ∷ us) h = ground (arith, AllCanonical-without t us h.1)

mentions_single : (v u : Username) → mentions v (u ∷ []) ≡ bytes_eq v u
unfolding mentions
mentions_single v u = ground arith

-- The flat index lists exactly the stored names, once each and in canonical form; the chunks
-- joined are the flat index; the counters count its names and its verified names.
pub record Coherent (r : Registry) : Type 0 where
  pub indexed : (u : Username) → mentions u r.index ≡ is_some (r.records u)
  pub distinct : Distinct r.index
  pub canonical : AllCanonical r.index
  pub chunked : joined r.chunks 0 r.chunk_count ≡ r.index
  pub counted : r.count ≡ length r.index
  pub verified_counted : r.verified_count ≡ count_verified r.records r.index

add_to_index-joined :
    (u : Username) (r : Registry)
    → joined (add_to_index u r).chunks 0 (add_to_index u r).chunk_count
      ≡ joined r.chunks 0 r.chunk_count ++ canon u ∷ []
unfolding add_to_index
add_to_index-joined u r = elim (Bool-cases (r.chunk_count == 0)) [
  | inl none_yet ↦
      let z : r.chunk_count ≡ 0 = (==_iff _ _).0 none_yet in
      rw (none_yet, z) (joined-put_new r.chunks 0 (canon u ∷ []))
  | inr some_yet ↦ elim (Bool-cases (leb chunk_size (length (r.chunks (r.chunk_count - 1))))) [
    | inl full ↦ rw (some_yet, full) (joined-put_new r.chunks r.chunk_count (canon u ∷ []))
    | inr room ↦
        rw (some_yet, room) (joined-put_last r.chunks r.chunk_count (canon u) (ground arith))
  ]
]

add_to_index_fields :
    (u : Username) (r : Registry)
    → ((add_to_index u r).index ≡ r.index ++ canon u ∷ [])
      × ((add_to_index u r).records ≡ r.records)
      × ((add_to_index u r).count ≡ r.count)
      × ((add_to_index u r).verified_count ≡ r.verified_count)
unfolding add_to_index
add_to_index_fields u r = ground arith

-- The writes of a first registration.
unfoldable pub enroll : Username → ContributorRecord → Registry → Registry
enroll u c r = set_record u c (add_to_index u (set_count (saturating_add_u32 r.count 1) r))

module _ (u : Username) (c : ContributorRecord) (r : Registry) where
  pub enroll-Coherent :
      Coherent r
      → get_record r u ≡ none
      → c.verified ≡ false
      → r.count < u32_max
      → Coherent (enroll u c r)
  unfolding enroll get_record set_record
  enroll-Coherent h new unverified room =
      let name = canon u in
      let counted_up = set_count (saturating_add_u32 r.count 1) r in
      let (index, records, count, verified_count) = add_to_index_fields u counted_up in
      let absent : mentions (canon u) r.index ≡ false = h.indexed (canon u) ∙ ap is_some new in
      record {
        indexed = λ v.
            rw (index, records, mentions-append)
              (ground (
                arith,
                h.indexed v,
                mentions_single v (canon u),
                bytes_eq_iff (canon u) v,
                bytes_eq_iff v (canon u),
              ));
        distinct = rw index (Distinct-snoc r.index (canon u) h.distinct absent);
        canonical =
            rw index (AllCanonical-append r.index _ h.canonical (canonicalize-canonicalize u, tt));
        chunked =
            add_to_index-joined u counted_up ∙ ap (λ l. l ++ canon u ∷ []) h.chunked ∙ sym index;
        counted =
            rw (index, count) (ground (arith, length-append r.index (canon u ∷ []), h.counted));
        verified_counted =
            rw (index, records, verified_count)
              (ground (
                arith,
                h.verified_counted,
                count_verified-append (put_name (canon u) (some c) r.records) r.index
                    (canon u ∷ []),
                count_verified-put_absent r.records (canon u) (some c) r.index absent,
                count_verified_single (put_name (canon u) (some c) r.records) (canon u),
                bytes_eq_refl (canon u),
              ));
      }

-- A write to a record that exists, with the verified counter moved by the difference.
unfoldable pub rewrite : Username → ContributorRecord → ℕ → Registry → Registry
rewrite u c v r = set_record u c (set_verified_count v r)

module _ (u : Username) (old c : ContributorRecord) (v : ℕ) (r : Registry) where
  pub rewrite-Coherent :
      Coherent r
      → get_record r u ≡ some old
      → v + one_if_verified (some old) ≡ r.verified_count + one_if_verified (some c)
      → Coherent (rewrite u c v r)
  unfolding rewrite get_record set_record
  rewrite-Coherent h stored moved =
      let present : mentions (canon u) r.index ≡ true = h.indexed (canon u) ∙ ap is_some stored in
      record {
        indexed = λ w. ground (arith, h.indexed w, bytes_eq_iff (canon u) w, present);
        distinct = h.distinct;
        canonical = h.canonical;
        chunked = h.chunked;
        counted = h.counted;
        verified_counted = ground (
          arith,
          h.verified_counted,
          moved,
          stored,
          count_verified-put r.records (canon u) (some c) r.index h.distinct present,
        );
      }

-- The writes of a removal.
unfoldable pub withdraw : Username → ℕ → Registry → Registry
withdraw u v r =
    set_verified_count v (set_count (r.count - 1) (remove_from_index u (erase_record u r)))

module _ (u : Username) (old : ContributorRecord) (v : ℕ) (r : Registry) where
  pub withdraw-Coherent :
      Coherent r
      → get_record r u ≡ some old
      → v + one_if_verified (some old) ≡ r.verified_count
      → Coherent (withdraw u v r)
  unfolding withdraw get_record erase_record remove_from_index
  withdraw-Coherent h stored moved =
      let present : mentions (canon u) r.index ≡ true = h.indexed (canon u) ∙ ap is_some stored in
      record {
        indexed = λ w. ground (arith, h.indexed w, mentions-without w (canon u) r.index);
        distinct = Distinct-without (canon u) r.index h.distinct;
        canonical = AllCanonical-without (canon u) r.index h.canonical;
        chunked =
            joined-remove (canon u) r.chunk_count 0 r.chunks (rw h.chunked h.distinct)
            ∙ ap (without (canon u)) h.chunked;
        counted = ground (arith, h.counted, length-without (canon u) r.index h.distinct present);
        verified_counted = ground (
          arith,
          h.verified_counted,
          moved,
          stored,
          count_verified-without r.records (canon u) r.index h.distinct present,
          mentions-without (canon u) (canon u) r.index,
          bytes_eq_refl (canon u),
          count_verified-put_absent r.records (canon u) none (without (canon u) r.index),
        );
      }

-- A verified record is among those counted.
pub share-le :
    (u : Username) (old : ContributorRecord) (r : Registry)
    → Coherent r
    → get_record r u ≡ some old
    → one_if_verified (some old) ≤ r.verified_count
unfolding get_record
share-le u old r h stored =
    let present : mentions (canon u) r.index ≡ true = h.indexed (canon u) ∙ ap is_some stored in
    let share = count_verified-without r.records (canon u) r.index h.distinct present in
    ground (arith, h.verified_counted, stored, share)

pub verified-le : (r : Registry) → Coherent r → r.verified_count ≤ r.count
verified-le r h = omega (arith, h.counted, h.verified_counted, count_verified-le r.records r.index)

-- A record that is not verified leaves room below the count.
pub room_for_one :
    (u : Username) (old : ContributorRecord) (r : Registry)
    → Coherent r
    → get_record r u ≡ some old
    → r.verified_count + 1 ≤ r.count + one_if_verified (some old)
unfolding get_record
room_for_one u old r h stored =
    let present : mentions (canon u) r.index ≡ true = h.indexed (canon u) ∙ ap is_some stored in
    let share = count_verified-without r.records (canon u) r.index h.distinct present in
    ground (
      arith,
      h.verified_counted,
      h.counted,
      stored,
      share,
      length-without (canon u) r.index h.distinct present,
      count_verified-le r.records (without (canon u) r.index),
    )
