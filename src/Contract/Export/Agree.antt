-- ===== src/Contract/Export/Agree.antt =====
-- The public page beside the page for the admin (src/storage.rs).
use mathlib.Core.Path.{subst}
use trustbridge_contract.Base.{
  ℕ, ◌-◌, ◌≤◌, ◌<◌, ◌≡◌, ◌∙◌, refl, sym, ap, Option, none, some, List, [], ◌∷◌, length, take, drop,
  arith, leb, u32_max, Bool, true, false, ⊤, is_some, bytes_eq_refl,
}
use trustbridge_contract.Username.{Username}
use trustbridge_contract.NameList.{mentions}
use trustbridge_contract.Types.{Address, ContributorRecord}
use trustbridge_contract.Types.State.{State, Registry}
use trustbridge_contract.Registry.{canon, get_record}
use trustbridge_contract.Registry.Coherent.{Coherent, AllCanonical}
use trustbridge_contract.Merkle.{root_of_records, leaves_of}
use trustbridge_contract.Merkle.Total.{root_of_ends}
use trustbridge_contract.Paging.{
  effective_limit, page_end, with_records, public_record_view, walk_end, nothing_seen, walk_chunk,
  CursorBytes,
}
use trustbridge_contract.Paging.Slice.{page-slice}
use trustbridge_contract.Paging.Walk.{Stored, viewed, walk_chunks-joined, walk-Result}
use trustbridge_contract.Contract.Monad.{
  Env, M, Outcome, ok, err, trap, ask, gets, continue, ◌>>=◌, actions,
}
use trustbridge_contract.Contract.Rules.{Reads, reads}
use trustbridge_contract.Contract.Guards.{require_initialized}
use trustbridge_contract.Contract.Guards.Same.{require_initialized-Reads}
use trustbridge_contract.Contract.Export.{
  ExportPage, registered_slice, public_walk, finish_page, get_public_paginated,
  get_registered_paginated_internal, registered_from, public_from, root_or_trap, cursor_offset,
}

mentions_here : (u : Username) (us : List Username) → mentions u (u ∷ us) ≡ true
unfolding mentions
mentions_here u us = ground (arith, bytes_eq_refl u)

mentions_later :
    (v u : Username) (us : List Username) → mentions v us ≡ true → mentions v (u ∷ us) ≡ true
unfolding mentions
mentions_later v u us h = ground (arith, h)

in_storage :
    (r : Registry) (u : Username)
    → canon u ≡ u
    → is_some (r.records u) ≡ true
    → is_some (get_record r u) ≡ true
unfolding get_record
in_storage r u e h = ap (λ v. is_some (r.records v)) e ∙ h

has_one : {A : Type 0} (o o' : Option A) → o' ≡ o → is_some o ≡ true → (a : A) × (o' ≡ some a)
has_one none o' e h = absurd (cc)
has_one (some a) o' e h = (a, e)

-- The names of a coherent registry have records.
Stored-names :
    (r : Registry) (us : List Username)
    → ((u : Username) → mentions u us ≡ true → is_some (r.records u) ≡ true)
    → AllCanonical us
    → Stored r us
Stored-names r [] h k = tt
Stored-names r (u ∷ us) h k = (
  has_one (get_record r u) (get_record r u) refl (in_storage r u k.0 (h u (mentions_here u us))),
  Stored-names r us (λ v m. h v (mentions_later v u us m)) k.1,
)

Coherent-Stored : (r : Registry) → Coherent r → Stored r r.index
Coherent-Stored r h = Stored-names r r.index (λ u m. sym (h.indexed u) ∙ m) h.canonical

-- Blanking the records of a list.
abbrev pub blanked :
    Address → List (Username × ContributorRecord) → List (Username × ContributorRecord)
blanked zero_address [] = []
blanked zero_address ((u, c) ∷ rest) =
    (u, public_record_view zero_address c) ∷ blanked zero_address rest

viewed-blanked :
    (a : Address) (r : Registry) (us : List Username)
    → viewed (public_record_view a) r us ≡ blanked a (with_records r us)
unfolding viewed with_records
viewed-blanked a r [] = refl
viewed-blanked a r (u ∷ us) = ground (arith, viewed-blanked a r us)

module _ (zero_address : Address) (r : Registry) (offset limit : ℕ) where
  public_walk-slice :
      Coherent r
      → length r.index ≤ u32_max
      → 0 < limit
      → ((public_walk zero_address r offset limit).records
          ≡ blanked zero_address (registered_slice r offset limit))
        × (walk_end offset limit (public_walk zero_address r offset limit)
            ≡ page_end offset limit r.index)
  unfolding public_walk registered_slice
  public_walk-slice h fits l =
      let view = public_record_view zero_address in
      let flat : public_walk zero_address r offset limit
          ≡ walk_chunk view r offset limit r.index nothing_seen =
        walk_chunks-joined view r offset limit r.chunk_count 0 nothing_seen
        ∙ ap (λ us. walk_chunk view r offset limit us nothing_seen) h.chunked in
      let (taken, ends) =
        walk-Result view r offset limit r.index 0 [] (Coherent-Stored r h) (omega arith) l in
      let whole : limit - length {A = Username × ContributorRecord} [] ≡ limit = omega arith in
      let start : offset - 0 ≡ offset = omega arith in
      let same_names : viewed view r (take limit (drop offset r.index))
          ≡ blanked zero_address (registered_slice r offset limit) =
        viewed-blanked zero_address r (take limit (drop offset r.index))
        ∙ ap (λ us. blanked zero_address (with_records r us))
            (sym (page-slice offset limit r.index fits)) in
      (
        ap (λ w. w.records) flat ∙ taken ∙ rw (start, whole) same_names,
        ap (walk_end offset limit) flat ∙ ends ∙ omega arith,
      )

-- Two calls end alike: both with pages that agree, or both with the same error.
abbrev pub Agree : Address → Outcome ExportPage → Outcome ExportPage → Type 0
Agree a (ok p) (ok q) =
    (p.records ≡ blanked a q.records)
    × (p.next_cursor ≡ q.next_cursor)
    × (p.total ≡ q.total)
    × (p.has_more ≡ q.has_more)
Agree a (err e) (err e') = e ≡ e'
Agree a trap trap = ⊤
Agree a _ _ = ⊥

-- Two calls that begin with the same check.
module _ {A : Type 0} (a : Address) (env : Env) where
  continue-Agree :
      (f g : A → M ExportPage) (s : State) (o : Outcome A × State)
      → o.1 ≡ s
      → ((x : A) → Agree a (f x env s).0 (g x env s).0)
      → Agree a (continue f env o).0 (continue g env o).0
  unfolding continue
  continue-Agree f g s (ok x, s') e h = rw e (h x)
  continue-Agree f g s (err c, s') e h = refl
  continue-Agree f g s (trap, s') e h = tt

  bind-Agree :
      (m : M A) (f g : A → M ExportPage) (s : State)
      → Reads m
      → ((x : A) → Agree a (f x env s).0 (g x env s).0)
      → Agree a ((m >>= f) env s).0 ((m >>= g) env s).0
  unfolding ◌>>=◌
  bind-Agree m f g s (reads p) h = continue-Agree f g s (m env s) (p env s) h

abbrev pub page_with :
    List (Username × ContributorRecord) → Option CursorBytes → ℕ → List ℕ → ExportPage
page_with records next total root = record {
  records = records;
  next_cursor = next;
  total = total;
  merkle_root = root;
  has_more = is_some next;
}

pub finish_page_ends :
    (records : List (Username × ContributorRecord)) (next : Option CursorBytes) (total : ℕ)
    (env : Env) (s : State)
    → (root : List ℕ) × ((finish_page records next total env s).0
        ≡ ok (page_with records next total root))
unfolding finish_page root_or_trap actions root_of_records
finish_page_ends records next total env s =
    let (root, is) = root_of_ends env.sha256 (leaves_of env.sha256 env.address_text records) in
    (root, ground (arith, is))

finished-Agree :
    (a : Address) (xs ys : List (Username × ContributorRecord)) (next next' : Option CursorBytes)
    (total : ℕ) (env : Env) (s : State)
    → xs ≡ blanked a ys
    → next ≡ next'
    → Agree a (finish_page xs next total env s).0 (finish_page ys next' total env s).0
finished-Agree a xs ys next next' total env s e f =
    let (root, is) = finish_page_ends xs next total env s in
    let (root', is') = finish_page_ends ys next' total env s in
    subst (λ (o : Outcome ExportPage). Agree a o (finish_page ys next' total env s).0) (sym is)
      (subst (λ (o : Outcome ExportPage). Agree a (ok (page_with xs next total root)) o) (sym is')
        (e, f, refl, ap is_some f))

cursor_offset-Reads : (cursor : Option CursorBytes) → Reads (cursor_offset cursor)
unfolding cursor_offset actions
cursor_offset-Reads none = reads λ env s. refl
cursor_offset-Reads (some c) = reads λ env s. ground arith

pub limit_positive : (limit : ℕ) → 0 < effective_limit limit
limit_positive limit = ground arith

module _ (env : Env) (s : State) (h : Coherent s.registry) (fits : s.registry.count ≤ u32_max) where
  from-Agree :
      (b : Bool) (offset limit : ℕ)
      → 0 < limit
      → Agree env.zero_address
          (public_from b env.zero_address s.registry offset limit env s).0
          (registered_from b s.registry offset limit env s).0
  unfolding public_from registered_from actions
  from-Agree true offset limit l = (refl, refl, refl, refl)
  from-Agree false offset limit l =
      let (records, ends) =
        public_walk-slice env.zero_address s.registry offset limit h (omega (arith, h.counted)) l in
      finished-Agree env.zero_address _ _ _ _ s.registry.count env s records
        (rw (ends, h.counted) refl)

  started :
      (offset limit : ℕ)
      → 0 < limit
      → Agree env.zero_address
          ((ask (λ e. e) >>= λ e. gets (λ s. s) >>= λ s.
              public_from (leb s.registry.count offset) e.zero_address s.registry offset limit)
            env s).0
          ((gets (λ s. s) >>= λ s.
              registered_from (leb s.registry.count offset) s.registry offset limit)
            env s).0
  unfolding actions
  started offset limit l = from-Agree (leb s.registry.count offset) offset limit l

  -- On a coherent registry whose count fits u32, a public page, which walks over the chunks, and
  -- the page that the admin gets for the same cursor and limit from the flat index end alike: both
  -- with the same error, or both with pages that have the same names in the same order, the same
  -- next cursor and the same total, where the public records are those of the admin with the
  -- addresses of unverified ones blanked.
  pub public-registered :
      (cursor : Option CursorBytes) (limit : ℕ)
      → Agree env.zero_address
          (get_public_paginated cursor limit env s).0
          (get_registered_paginated_internal cursor limit env s).0
  unfolding get_public_paginated get_registered_paginated_internal
  public-registered cursor limit =
      bind-Agree env.zero_address env require_initialized _ _ s require_initialized-Reads λ _.
        bind-Agree env.zero_address env (cursor_offset cursor) _ _ s (cursor_offset-Reads cursor)
          λ offset. started offset (effective_limit limit) (limit_positive limit)
