-- ===== src/Contract/Export.antt =====
-- The exports of the registry (src/lib.rs:3264): pages for the admin, public pages, and the
-- attestation of a page. The XDR encoding of a page is the host's, and a parameter.
pub mod Agree
pub mod Cover
use trustbridge_contract.Base.{
  ℕ, ◌-◌, ◌==◌, ◌||◌, Bool, true, false, Option, none, some, List, [], ◌∷◌, ⊤, length, ltb, leb,
  is_some, if◌then◌else◌,
}
use trustbridge_contract.Error.{ContractError}
use trustbridge_contract.Username.{Username}
use trustbridge_contract.Types.{Address, ContributorRecord, RoleHolder}
use trustbridge_contract.Types.State.{State, Registry, Access, Names}
use trustbridge_contract.Names.{get_pending_reverify}
use trustbridge_contract.Merkle.{Digest, root_of_records, empty_root}
use trustbridge_contract.Paging.{
  effective_limit, max_page_limit, places, page_end, get_index_page, with_records, with_addresses,
  CursorBytes, encode_cursor, decode_cursor, public_record_view, walk_chunks, walk_end,
  nothing_seen, Walking,
}
use trustbridge_contract.Contract.Monad.{
  Env, M, ok, trap, pure, ask, gets, ok_or, ◌>>=◌, ◌>>◌, reject_if, require_auth,
}
use trustbridge_contract.Contract.Guards.{
  require_initialized, get_admin, get_role, version_or_default,
}
use trustbridge_contract.Contract.Upgrade.{version_parts}

pub record ExportPage : Type 0 where
  pub records : List (Username × ContributorRecord)
  pub next_cursor : Option CursorBytes
  pub total : ℕ
  pub merkle_root : Digest
  pub has_more : Bool

pub record ExportAttestation : Type 0 where
  pub page : ExportPage
  pub digest : Digest
  pub version : List ℕ
  pub ledger : ℕ

unfoldable pub cursor_offset : Option CursorBytes → M ℕ
cursor_offset none = pure 0
cursor_offset (some c) = do
  s ← gets (λ s. s)
  ok_or (decode_cursor s.registry c) ContractError.invalid_cursor

-- A root that the hash has none of: there is always one (Merkle.Total).
unfoldable pub root_or_trap : Option Digest → M Digest
root_or_trap none env s = (trap, s)
root_or_trap (some root) env s = (ok root, s)

unfoldable pub finish_page :
    List (Username × ContributorRecord) → Option CursorBytes → ℕ → M ExportPage
finish_page records next_cursor total = do
  env ← ask (λ e. e)
  root ← root_or_trap (root_of_records env.sha256 env.address_text records)
  pure (record {
    records = records;
    next_cursor = next_cursor;
    total = total;
    merkle_root = root;
    has_more = is_some next_cursor;
  })

abbrev pub empty_page : ℕ → ExportPage
empty_page total = record {
  records = [];
  next_cursor = none;
  total = total;
  merkle_root = empty_root;
  has_more = false;
}

-- The cursor of the place where a page ended, where something is left.
abbrev pub cursor_after : Registry → ℕ → ℕ → Option CursorBytes
cursor_after r end_at total = if ltb end_at total then some (encode_cursor r end_at) else none

-- The records of a page for the admin.
unfoldable pub registered_slice : Registry → ℕ → ℕ → List (Username × ContributorRecord)
registered_slice r offset limit =
    with_records r (places (page_end offset limit r.index - offset) offset r.index)

unfoldable pub registered_from : Bool → Registry → ℕ → ℕ → M ExportPage
registered_from true r offset limit = pure (empty_page r.count)
registered_from false r offset limit =
    finish_page (registered_slice r offset limit)
      (cursor_after r (page_end offset limit r.index) (length r.index)) r.count

unfoldable pub get_registered_paginated_internal : Option CursorBytes → ℕ → M ExportPage
unfolding cursor_offset registered_from finish_page
get_registered_paginated_internal cursor limit = do
  require_initialized
  offset ← cursor_offset cursor
  s ← gets (λ s. s)
  registered_from (leb s.registry.count offset) s.registry offset (effective_limit limit)

unfoldable pub get_registered_paginated : Option CursorBytes → ℕ → M ExportPage
get_registered_paginated cursor limit = do
  require_initialized
  admin ← get_admin
  require_auth admin
  get_registered_paginated_internal cursor limit

-- The walk of a public page.
unfoldable pub public_walk : Address → Registry → ℕ → ℕ → Walking
public_walk zero_address r offset limit =
    walk_chunks (public_record_view zero_address) r offset limit r.chunk_count 0 nothing_seen

unfoldable pub public_from : Bool → Address → Registry → ℕ → ℕ → M ExportPage
public_from true zero_address r offset limit = pure (empty_page r.count)
public_from false zero_address r offset limit =
    finish_page (public_walk zero_address r offset limit).records
      (cursor_after r (walk_end offset limit (public_walk zero_address r offset limit)) r.count)
      r.count

unfoldable pub get_public_paginated : Option CursorBytes → ℕ → M ExportPage
unfolding cursor_offset public_from finish_page
get_public_paginated cursor limit = do
  require_initialized
  offset ← cursor_offset cursor
  env ← ask (λ e. e)
  s ← gets (λ s. s)
  public_from (leb s.registry.count offset) env.zero_address s.registry offset
      (effective_limit limit)

unfoldable pub get_registered_page : ℕ → ℕ → M (List (Username × Address))
get_registered_page offset limit = do
  require_initialized
  admin ← get_admin
  require_auth admin
  s ← gets (λ s. s)
  pure (with_addresses s.registry (get_index_page s.registry offset limit))

unfoldable pub get_all_registered : M (List (Username × Address))
get_all_registered = do
  require_initialized
  admin ← get_admin
  require_auth admin
  s ← gets (λ s. s)
  pure (with_addresses s.registry s.registry.index)

module _ (to_xdr : ExportPage → List ℕ) where
  unfoldable pub build_export_digest : Env → ExportPage → Digest
  build_export_digest env page = env.sha256 (to_xdr page)

  unfoldable pub export_attestation : Option CursorBytes → ℕ → M ExportAttestation
  export_attestation cursor limit = do
    require_initialized
    admin ← get_admin
    require_auth admin
    page ← get_registered_paginated_internal cursor limit
    env ← ask (λ e. e)
    s ← gets (λ s. s)
    pure (record {
      page = page;
      digest = build_export_digest env page;
      version = version_parts (version_or_default s.governance);
      ledger = env.sequence;
    })

-- The names of a page that are flagged for another verification.
unfoldable pub flagged : Names → List Username → List Username
flagged n [] = []
flagged n (u ∷ us) = if get_pending_reverify n u then u ∷ flagged n us else flagged n us

unfoldable pub get_pending_reverify_page : ℕ → ℕ → M (List Username)
get_pending_reverify_page offset limit = do
  require_initialized
  reject_if (ltb max_page_limit limit) ContractError.invalid_batch_size
  s ← gets (λ s. s)
  pure (flagged s.names (get_index_page s.registry offset limit))

-- `MAX_ROLE_PAGE_LIMIT`.
abbrev pub max_role_page_limit : ℕ
max_role_page_limit = 50

abbrev pub capped_role_limit : ℕ → ℕ
capped_role_limit limit =
    if limit == 0 || ltb max_role_page_limit limit then max_role_page_limit else limit

-- An address whose role has expired is skipped.
unfoldable pub holders_among : Env → Access → List Address → List RoleHolder
holders_among env x [] = []
holders_among env x (a ∷ rest) = elim (get_role env x a) [
  | none ↦ holders_among env x rest
  | some r ↦ record { address = a; role = r } ∷ holders_among env x rest
]

unfoldable pub get_role_holders : Env → State → ℕ → ℕ → List RoleHolder
get_role_holders env s offset limit =
    let index = s.access.role_index in
    if leb (length index) offset
    then []
    else holders_among env s.access
        (places (page_end offset (capped_role_limit limit) index - offset) offset index)
