-- ===== src/Paging/Walk.antt =====
-- The walk over the chunks (src/storage.rs) beside a page of the flat index.
use trustbridge_contract.Base.{
  ℕ, zero, suc, ◌+◌, ◌-◌, ◌≤◌, ◌<◌, ◌≡◌, ◌∙◌, refl, sym, ap, none, some, List, [], ◌∷◌, ◌++◌,
  length, take, drop, arith, min, max, u32_max, ⊤, length-append, Option-cases, inl, inr,
}
use mathlib.Core.Path.{subst}
use native.Mathlib.Decide.{dec_lt}
use mathlib.Core.List.{append-nil, append_assoc}
use trustbridge_contract.Username.{Username}
use trustbridge_contract.Types.{ContributorRecord}
use trustbridge_contract.Types.State.{Registry}
use trustbridge_contract.Registry.{get_record}
use trustbridge_contract.Registry.Chunks.{joined}
use trustbridge_contract.Paging.Slice.{take_none}
use trustbridge_contract.Paging.{
  Walking, pick, visit, walk_chunk, walk_chunks, walk_end, nothing_seen,
}

-- Every name of the list has a record.
abbrev pub Stored : Registry → List Username → Type 0
Stored r [] = ⊤
Stored r (u ∷ us) = ((c : ContributorRecord) × (get_record r u ≡ some c)) × Stored r us

-- The entries of a page under a view.
unfoldable pub viewed :
    (ContributorRecord → ContributorRecord)
    → Registry
    → List Username
    → List (Username × ContributorRecord)
viewed view r [] = []
viewed view r (u ∷ us) = elim (get_record r u) [
  | none ↦ viewed view r us
  | some c ↦ (u, view c) ∷ viewed view r us
]

abbrev pub going : ℕ → List (Username × ContributorRecord) → Walking
going seen records = record { seen = seen; records = records; left_at = none }

-- What stays where the loops were left.
kept : (w x : Walking) (e : ℕ) → w.left_at ≡ some e → elim w.left_at [ none ↦ x | some _ ↦ w ] ≡ w
kept w x e p = ground (arith, p)

module _ (view : ContributorRecord → ContributorRecord) (r : Registry) (offset limit : ℕ) where
  walk_left :
      (us : List Username) (w : Walking) (e : ℕ)
      → w.left_at ≡ some e
      → walk_chunk view r offset limit us w ≡ w
  unfolding walk_chunk
  walk_left [] w e p = refl
  walk_left (u ∷ us) w e p =
      ap (walk_chunk view r offset limit us) (kept w _ e p) ∙ walk_left us w e p

  walk-append :
      (us vs : List Username) (w : Walking)
      → walk_chunk view r offset limit (us ++ vs) w
        ≡ walk_chunk view r offset limit vs (walk_chunk view r offset limit us w)
  unfolding walk_chunk
  walk-append [] vs w = refl
  walk-append (u ∷ us) vs w = walk-append us vs _

  walk_once :
      (us : List Username) (w : Walking)
      → elim w.left_at [ none ↦ walk_chunk view r offset limit us w | some _ ↦ w ]
        ≡ walk_chunk view r offset limit us w
  walk_once us w = elim (Option-cases w.left_at) [
    | inl going_on ↦ ground (arith, going_on)
    | inr (e, left) ↦ kept w _ e left ∙ sym (walk_left us w e left)
  ]

  pub walk_chunks-joined :
      (n c : ℕ) (w : Walking)
      → walk_chunks view r offset limit n c w
        ≡ walk_chunk view r offset limit (joined r.chunks c n) w
  unfolding walk_chunks joined walk_chunk
  walk_chunks-joined zero c w = refl
  walk_chunks-joined (suc n) c w =
      walk_chunks-joined n (c + 1) _
      ∙ ap (walk_chunk view r offset limit (joined r.chunks (c + 1) n)) (walk_once (r.chunks c) w)
      ∙ sym (walk-append (r.chunks c) (joined r.chunks (c + 1) n) w)

  module _ (seen : ℕ) (records : List (Username × ContributorRecord)) (u : Username) where
    visit_before :
        seen < offset
        → seen < u32_max
        → length records < limit
        → visit view r offset limit u (going seen records) ≡ going (suc seen) records
    unfolding visit pick
    visit_before h k l = ground arith

    visit_takes :
        (c : ContributorRecord)
        → offset ≤ seen
        → seen < u32_max
        → suc (length records) < limit
        → get_record r u ≡ some c
        → visit view r offset limit u (going seen records)
          ≡ going (suc seen) (records ++ (u, view c) ∷ [])
    unfolding visit pick
    visit_takes c h k l e = ground (arith, e, length-append records ((u, view c) ∷ []))

    visit_fills :
        (c : ContributorRecord)
        → offset ≤ seen
        → seen < u32_max
        → suc (length records) ≡ limit
        → get_record r u ≡ some c
        → visit view r offset limit u (going seen records) ≡ record {
          seen = suc seen;
          records = records ++ (u, view c) ∷ [];
          left_at = some (suc seen);
        }
    unfolding visit pick
    visit_fills c h k l e = ground (arith, e, length-append records ((u, view c) ∷ []))

  -- Where a walk ends that goes on with some entries taken.
  abbrev end_from : ℕ → ℕ → List Username → ℕ
  end_from seen taken us = min (seen + length us) (max offset seen + (limit - taken))

  -- The result of a walk in progress.
  abbrev Result : ℕ → List (Username × ContributorRecord) → List Username → Walking → Type 0
  Result seen records us w =
      (w.records
        ≡ records ++ viewed view r (take (limit - length records) (drop (offset - seen) us)))
      × (walk_end offset limit w ≡ end_from seen (length records) us)

  drop_step :
      (n k : ℕ) (u : Username) (us : List Username) → n ≡ suc k → drop n (u ∷ us) ≡ drop k us
  drop_step n k u us e = ap (λ j. drop j (u ∷ us)) e

  at_end :
      (seen : ℕ) (records : List (Username × ContributorRecord))
      → length records < limit
      → Result seen records [] (going seen records)
  unfolding viewed
  at_end seen records h = (
    sym (append-nil records)
        ∙ ap (λ l. records ++ viewed view r l)
            (sym (take_none (limit - length records) (offset - seen))),
    ground arith,
  )

  viewed_step :
      (u : Username) (us : List Username) (c : ContributorRecord)
      → get_record r u ≡ some c
      → viewed view r (u ∷ us) ≡ (u, view c) ∷ viewed view r us
  unfolding viewed
  viewed_step u us c e = ground (arith, e)

  module _ (seen : ℕ) (records : List (Username × ContributorRecord)) (u : Username)
      (us : List Username) (w : Walking) where
    from_before : seen < offset → Result (suc seen) records us w → Result seen records (u ∷ us) w
    from_before h (p, q) = (
      p
          ∙ ap (λ l. records ++ viewed view r (take (limit - length records) l))
              (sym (drop_step (offset - seen) (offset - suc seen) u us (omega arith))),
      q ∙ omega arith,
    )

    page_step :
        (c : ContributorRecord)
        → offset ≤ seen
        → length records < limit
        → get_record r u ≡ some c
        → records ++ viewed view r (take (limit - length records) (drop (offset - seen) (u ∷ us)))
          ≡ (records ++ (u, view c) ∷ []) ++ viewed view r (take (limit - suc (length records)) us)
    page_step c h l e =
        let z : offset - seen ≡ 0 = omega arith in
        let k : limit - length records ≡ suc (limit - suc (length records)) = omega arith in
        rw (z, k, append_assoc)
          (ap (λ rest. records ++ rest)
            (viewed_step u (take (limit - suc (length records)) us) c e))

    from_takes :
        (c : ContributorRecord)
        → offset ≤ seen
        → length records < limit
        → get_record r u ≡ some c
        → Result (suc seen) (records ++ (u, view c) ∷ []) us w
        → Result seen records (u ∷ us) w
    from_takes c h l e (p, q) =
        let longer : length (records ++ (u, view c) ∷ []) ≡ suc (length records) =
          omega (arith, length-append records ((u, view c) ∷ [])) in
        let start : offset - suc seen ≡ 0 = omega arith in
        (p ∙ rw (longer, start) (sym (page_step c h l e)), q ∙ rw longer (omega arith))

    full_page :
        (c : ContributorRecord)
        → offset ≤ seen
        → suc (length records) ≡ limit
        → get_record r u ≡ some c
        → Result seen records (u ∷ us) (record {
          seen = suc seen;
          records = records ++ (u, view c) ∷ [];
          left_at = some (suc seen);
        })
    unfolding viewed
    full_page c h l e =
        let none_left : limit - suc (length records) ≡ 0 = omega arith in
        let longer : length (records ++ (u, view c) ∷ []) ≡ suc (length records) =
          omega (arith, length-append records ((u, view c) ∷ [])) in
        (
          sym (page_step c h (omega arith) e ∙ rw none_left (append-nil _)),
          ground (arith, longer, l, h),
        )

  module _ (seen : ℕ) (records : List (Username × ContributorRecord)) (u : Username)
      (us : List Username) where
    after_full :
        (c : ContributorRecord)
        → offset ≤ seen
        → suc (length records) ≡ limit
        → get_record r u ≡ some c
        → Result seen records (u ∷ us) (
            walk_chunk view r offset limit us (record {
              seen = suc seen;
              records = records ++ (u, view c) ∷ [];
              left_at = some (suc seen);
            }))
    after_full c h l e =
        subst (λ (x : Walking). Result seen records (u ∷ us) x)
          (sym (walk_left us _ (suc seen) refl)) (full_page seen records u us nothing_seen c h l e)

  pub walk-Result :
      (us : List Username) (seen : ℕ) (records : List (Username × ContributorRecord))
      → Stored r us
      → seen + length us ≤ u32_max
      → length records < limit
      → Result seen records us (walk_chunk view r offset limit us (going seen records))
  unfolding walk_chunk
  walk-Result [] seen records h k l = at_end seen records l
  walk-Result (u ∷ us) seen records ((c, e), h) k l = elim (dec_lt seen offset) [
    | yes before ↦ after (sym (visit_before seen records u before (omega arith) l)) (
        from_before seen records u us (walk_chunk view r offset limit us (going (suc seen) records))
          before (walk-Result us (suc seen) records h (omega arith) l))
    | no inside ↦ elim (dec_lt (suc (length records)) limit) [
      | yes room ↦ after (sym (visit_takes seen records u c (omega arith) (omega arith) room e)) (
          from_takes seen records u us
            (walk_chunk view r offset limit us (going (suc seen) (records ++ (u, view c) ∷ []))) c
            (omega arith) l e
            (walk-Result us (suc seen) (records ++ (u, view c) ∷ []) h (omega arith)
              (omega (arith, length-append records ((u, view c) ∷ [])))))
      | no full ↦
          after (sym (visit_fills seen records u c (omega arith) (omega arith) (omega arith) e))
            (after_full seen records u us c (omega arith) (omega arith) e)
    ]
  ]
    where
      after :
          {w w' : Walking}
          → w ≡ w'
          → Result seen records (u ∷ us) (walk_chunk view r offset limit us w)
          → Result seen records (u ∷ us) (walk_chunk view r offset limit us w')
      after p q =
          subst
            (λ (x : Walking). Result seen records (u ∷ us) (walk_chunk view r offset limit us x)) p
            q
