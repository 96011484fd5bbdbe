-- ===== src/Contract/Export/Cover.antt =====
-- Following the cursors reads the whole registry, once and in order.
use native.Mathlib.Decide.{dec_lt}
use trustbridge_contract.Base.{
  ℕ, zero, suc, ◌-◌, ◌+◌, ◌≤◌, ◌<◌, ◌≡◌, ◌∙◌, refl, sym, ap, Option, none, some, List, [], ◌∷◌,
  ◌++◌, length, take, drop, arith, ltb, leb, u32_max, Bool, true, false, is_some, ltb→lt,
  Bool-cases, inl, inr,
}
use trustbridge_contract.Username.{Username}
use trustbridge_contract.Types.{ContributorRecord}
use trustbridge_contract.Types.State.{State, Registry}
use trustbridge_contract.Registry.Coherent.{Coherent}
use trustbridge_contract.Paging.{
  effective_limit, page_end, with_records, CursorBytes, encode_cursor,
}
use trustbridge_contract.Paging.Cursor.{decode-encode}
use trustbridge_contract.Paging.Slice.{
  page-slice, take-append_drop, drop-drop, drop_past, length-drop,
}
use trustbridge_contract.Contract.Monad.{Env, Outcome, ok, err, trap, pure, actions}
use trustbridge_contract.Contract.Guards.{require_initialized, network_mismatch}
use trustbridge_contract.Contract.Export.{
  ExportPage, registered_slice, finish_page, get_registered_paginated_internal, registered_from,
  cursor_offset, cursor_after, empty_page,
}
use trustbridge_contract.Contract.Export.Agree.{finish_page_ends, limit_positive}

-- A client that asks for the next page as long as it is given a cursor.
abbrev pub rest_of :
    (Option CursorBytes → List (Username × ContributorRecord))
    → Option CursorBytes
    → List (Username × ContributorRecord)
rest_of next none = []
rest_of next (some c) = next (some c)

abbrev pub gather :
    (Option CursorBytes → List (Username × ContributorRecord))
    → Outcome ExportPage
    → List (Username × ContributorRecord)
gather next (ok p) = p.records ++ rest_of next p.next_cursor
gather next (err e) = []
gather next trap = []

unfoldable pub follow :
    ℕ → Env → State → ℕ → Option CursorBytes → List (Username × ContributorRecord)
follow zero env s limit cursor = []
follow (suc pages) env s limit cursor =
    gather (follow pages env s limit) (get_registered_paginated_internal cursor limit env s).0

with_records-append :
    (r : Registry) (us vs : List Username)
    → with_records r (us ++ vs) ≡ with_records r us ++ with_records r vs
unfolding with_records
with_records-append r [] vs = refl
with_records-append r (u ∷ us) vs = ground (arith, with_records-append r us vs)

dropped_rest :
    (us : List Username) (offset limit : ℕ)
    → length us ≤ u32_max
    → offset ≤ length us
    → drop (page_end offset limit us) us ≡ drop limit (drop offset us)
dropped_rest us offset limit fits h = elim (dec_lt (offset + limit) (length us)) [
  | yes inside ↦
      ap (λ n. drop n us) (omega arith) ∙ sym (drop-drop limit offset (offset + limit) us refl)
  | no past ↦
      drop_past (page_end offset limit us) us (omega arith)
      ∙ sym (drop_past limit (drop offset us) (omega (arith, length-drop offset us)))
]

-- A page and what is left make the rest of the index.
page_and_rest :
    (r : Registry) (offset limit : ℕ)
    → length r.index ≤ u32_max
    → offset ≤ length r.index
    → registered_slice r offset limit
        ++ with_records r (drop (page_end offset limit r.index) r.index)
      ≡ with_records r (drop offset r.index)
unfolding registered_slice
page_and_rest r offset limit fits h =
    let rest = drop offset r.index in
    let left : drop (page_end offset limit r.index) r.index ≡ drop limit rest =
      dropped_rest r.index offset limit fits h in
    rw (page-slice offset limit r.index fits, left)
      (sym (with_records-append r (take limit rest) (drop limit rest))
        ∙ ap (with_records r) (take-append_drop limit rest))

initialized_ok :
    (env : Env) (s : State)
    → is_some s.control.admin ≡ true
    → network_mismatch s.control env ≡ false
    → require_initialized env s ≡ (ok tt, s)
unfolding require_initialized actions
initialized_ok env s h k = ground (arith, h, k)

registered_inside :
    (b : Bool) (r : Registry) (offset limit : ℕ)
    → b ≡ false
    → registered_from b r offset limit
      ≡ finish_page
          (registered_slice r offset limit)
          (cursor_after r (page_end offset limit r.index) (length r.index))
          r.count
unfolding registered_from
registered_inside true r offset limit e = absurd (cc)
registered_inside false r offset limit e = refl

registered_past :
    (b : Bool) (r : Registry) (offset limit : ℕ)
    → b ≡ true
    → registered_from b r offset limit ≡ pure (empty_page r.count)
unfolding registered_from
registered_past true r offset limit e = refl
registered_past false r offset limit e = absurd (cc)

start : (env : Env) (s : State) → cursor_offset none env s ≡ (ok 0, s)
unfolding cursor_offset actions
start env s = refl

module _ (env : Env) (s : State) (limit : ℕ) (ready : is_some s.control.admin ≡ true)
    (on_network : network_mismatch s.control env ≡ false) (coherent : Coherent s.registry)
    (fits : s.registry.count ≤ u32_max)
    (generation_fits : s.registry.index_generation ≤ u32_max) where
  abbrev index : List Username
  index = s.registry.index

  abbrev size : ℕ
  size = effective_limit limit

  -- The call at an offset inside the registry.
  page_at :
      (cursor : Option CursorBytes) (offset : ℕ)
      → cursor_offset cursor env s ≡ (ok offset, s)
      → offset < s.registry.count
      → (get_registered_paginated_internal cursor limit env s).0
        ≡ (finish_page
            (registered_slice s.registry offset size)
            (cursor_after s.registry (page_end offset size index) (length index))
            s.registry.count
            env
            s).0
  unfolding get_registered_paginated_internal actions
  page_at cursor offset e h =
      rw (initialized_ok env s ready on_network, e)
        (ap (λ m. (m env s).0)
          (registered_inside (leb s.registry.count offset) s.registry offset size (ground arith)))

  issued :
      (offset : ℕ)
      → offset ≤ s.registry.count
      → cursor_offset (some (encode_cursor s.registry offset)) env s ≡ (ok offset, s)
  unfolding cursor_offset actions
  issued offset h = rw (decode-encode s.registry offset generation_fits fits h) refl

  -- What the client reads after a page that ends there.
  rest_after :
      (next : Option CursorBytes → List (Username × ContributorRecord)) (end_at : ℕ)
      → (end_at < length index
          → next (some (encode_cursor s.registry end_at))
            ≡ with_records s.registry (drop end_at index))
      → rest_of next (cursor_after s.registry end_at (length index))
        ≡ with_records s.registry (drop end_at index)
  unfolding with_records
  rest_after next end_at h = elim (Bool-cases (ltb end_at (length index))) [
    | inl inside ↦ rw inside (h (ltb→lt _ _ inside))
    | inr past ↦ rw (past, drop_past end_at index (ground (arith, past))) refl
  ]

  follow_from :
      (pages : ℕ) (cursor : Option CursorBytes) (offset : ℕ)
      → cursor_offset cursor env s ≡ (ok offset, s)
      → offset < s.registry.count
      → length index - offset ≤ pages
      → follow pages env s limit cursor ≡ with_records s.registry (drop offset index)
  unfolding follow
  follow_from zero cursor offset e h k = absurd (omega (arith, coherent.counted))
  follow_from (suc pages) cursor offset e h k =
      let r = s.registry in
      let next = cursor_after r (page_end offset size index) (length index) in
      let (root, is) = finish_page_ends (registered_slice r offset size) next r.count env s in
      ap (gather (follow pages env s limit)) (page_at cursor offset e h ∙ is)
      ∙ ap (λ rest. registered_slice r offset size ++ rest)
          (rest_after (follow pages env s limit) (page_end offset size index) λ inside.
            follow_from pages (some (encode_cursor r (page_end offset size index)))
              (page_end offset size index)
              (issued (page_end offset size index) (omega (arith, coherent.counted)))
              (omega (arith, coherent.counted))
              (omega (arith, limit_positive limit, coherent.counted)))
      ∙ page_and_rest r offset size (omega (arith, coherent.counted))
          (omega (arith, coherent.counted))

  page_past :
      s.registry.count ≡ 0
      → (get_registered_paginated_internal none limit env s).0 ≡ ok (empty_page s.registry.count)
  unfolding get_registered_paginated_internal cursor_offset actions
  page_past e = rw (initialized_ok env s ready on_network) (
      ap (λ m. (m env s).0)
        (registered_past (leb s.registry.count 0) s.registry 0 size (ground (arith, e))))

  none_left :
      (pages : ℕ)
      → s.registry.count ≡ 0
      → follow (suc pages) env s limit none ≡ with_records s.registry index
  unfolding follow with_records
  none_left pages e =
      ap (gather (follow pages env s limit)) (page_past e)
      ∙ ap (with_records s.registry) (sym (drop_past 0 index (omega (arith, coherent.counted))))

  -- A client that follows the cursors of the pages for the admin, with any limit, from the first
  -- page on, reads exactly the records of the flat index, each once and in its order, in at most
  -- one page more than there are names. The contract is initialized on this network, the registry
  -- coherent, and its count and generation fit u32.
  pub follow-with_records :
      (pages : ℕ)
      → length index ≤ pages
      → follow (suc pages) env s limit none ≡ with_records s.registry index
  follow-with_records pages h = elim (dec_lt 0 s.registry.count) [
    | yes some_there ↦ follow_from (suc pages) none 0 (start env s) some_there (omega arith)
    | no none_there ↦ none_left pages (omega arith)
  ]
