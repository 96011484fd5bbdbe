-- ===== src/Contract/Migration/Layout.antt =====
-- The step of a migration on the entries as they are stored (src/storage.rs:2282): a record that
-- can be read is written again, in the encoding of the day.
use trustbridge_contract.Base.{
  ◌≡◌, refl, sym, ap, ◌∙◌, Bool, true, false, Option, none, some, List, [], ◌∷◌, ◌||◌, arith,
  if◌then◌else◌, bytes_eq, bytes_eq_iff, Bool-cases, inl, inr, Option-cases,
}
use trustbridge_contract.Username.{Username}
use trustbridge_contract.Types.{ContributorRecord}
use trustbridge_contract.Types.State.{Registry, put_name}
use trustbridge_contract.Registry.{canon}
use trustbridge_contract.Contract.Migration.{resave}
use trustbridge_contract.Contract.Migration.Effect.{resave-same}

-- What the host answers when an entry is asked for as a record: the record, nothing, or the call
-- ends with a trap.
pub data Reading : Type 0 where
  found : ContributorRecord → Reading
  missing : Reading
  traps : Reading

abbrev pub as_read : Option ContributorRecord → Reading
as_read (some c) = Reading.found c
as_read none = Reading.missing

-- Whether a name of the list is stored under the key.
abbrev pub stored_under : Username → List Username → Bool
stored_under k [] = false
stored_under k (u ∷ us) = bytes_eq (canon u) k || stored_under k us

-- The entries of the host.
abbrev pub Stored : Type 0 → Type 0
Stored Entry = Username → Option Entry

-- How the host reads and writes a record.
module _ {Entry : Type 0} (read : Entry → Reading) (write : ContributorRecord → Entry) where
  abbrev pub read_entry : Option Entry → Reading
  read_entry none = Reading.missing
  read_entry (some e) = read e

  -- What is done for one name: `get_record`, and `set_record` where it finds a record.
  abbrev pub rewrite_as : Username → Reading → Stored Entry → Option (Stored Entry)
  rewrite_as u (Reading.found c) st = some (put_name (canon u) (some (write c)) st)
  rewrite_as u Reading.missing st = some st
  rewrite_as u Reading.traps st = none

  -- The loop over the index. There is no result where the host traps.
  unfoldable pub normalize : List Username → Stored Entry → Option (Stored Entry)
  normalize [] st = some st
  normalize (u ∷ us) st = elim (rewrite_as u (read_entry (st (canon u))) st) [
    | none ↦ none
    | some st' ↦ normalize us st'
  ]

  -- The entries read as the records of the registry.
  abbrev pub ReadsAs : Stored Entry → Registry → Type 0
  ReadsAs st r = (k : Username) → read_entry (st k) ≡ as_read (r.records k)

  -- The entry of a key once it is written again.
  abbrev pub renewed : Option ContributorRecord → Option Entry → Option Entry
  renewed (some c) e = some (write c)
  renewed none e = e

  abbrev pub Renews : List Username → Registry → Stored Entry → Stored Entry → Type 0
  Renews us r st st' =
      (k : Username) → st' k ≡ (if stored_under k us then renewed (r.records k) (st k) else st k)

-- A record that is written reads back.
module _ {Entry : Type 0} (read : Entry → Reading) (write : ContributorRecord → Entry)
    (reads_back : (c : ContributorRecord) → read (write c) ≡ Reading.found c) where
  put-ReadsAs :
      (u : Username) (c : ContributorRecord) (st : Stored Entry) (r : Registry)
      → r.records (canon u) ≡ some c
      → ReadsAs read write st r
      → ReadsAs read write (put_name (canon u) (some (write c)) st) r
  put-ReadsAs u c st r e h k = elim (Bool-cases (bytes_eq (canon u) k)) [
    | inl same ↦ rw (same, sym ((bytes_eq_iff (canon u) k).0 same), e) (reads_back c)
    | inr other ↦ rw other (h k)
  ]

  put-Renews :
      (u : Username) (us : List Username) (c : ContributorRecord) (r : Registry)
      (st st' : Stored Entry)
      → r.records (canon u) ≡ some c
      → Renews read write us r (put_name (canon u) (some (write c)) st) st'
      → Renews read write (u ∷ us) r st st'
  put-Renews u us c r st st' e h k = elim (Bool-cases (bytes_eq (canon u) k)) [
    | inl same ↦ ground (arith, same, here same, h k)
    | inr other ↦ ground (arith, other, h k)
  ]
    where
      here : bytes_eq (canon u) k ≡ true → r.records k ≡ some c
      here same = ap r.records (sym ((bytes_eq_iff (canon u) k).0 same)) ∙ e

  skip-Renews :
      (u : Username) (us : List Username) (r : Registry) (st st' : Stored Entry)
      → r.records (canon u) ≡ none
      → Renews read write us r st st'
      → Renews read write (u ∷ us) r st st'
  skip-Renews u us r st st' e h k = elim (Bool-cases (bytes_eq (canon u) k)) [
    | inl same ↦ ground (arith, same, here same, h k)
    | inr other ↦ ground (arith, other, h k)
  ]
    where
      here : bytes_eq (canon u) k ≡ true → r.records k ≡ none
      here same = ap r.records (sym ((bytes_eq_iff (canon u) k).0 same)) ∙ e

  normalize-as :
      (u : Username) (us : List Username) (st : Stored Entry) (g : Reading)
      → read_entry read write (st (canon u)) ≡ g
      → normalize read write (u ∷ us) st ≡ elim (rewrite_as read write u g st) [
        | none ↦ none
        | some st' ↦ normalize read write us st'
      ]
  unfolding normalize
  normalize-as u us st g e =
      ap
        (λ (g' : Reading). elim (rewrite_as read write u g' st) as (λ _. Option (Stored Entry)) [
          | none ↦ none
          | some st' ↦ normalize read write us st'
        ])
        e

  normalized :
      (us : List Username) (st : Stored Entry) (r : Registry)
      → ReadsAs read write st r
      → (st' : Stored Entry) × (normalize read write us st ≡ some st')
        × ReadsAs read write st' r
        × Renews read write us r st st'
  unfolding normalize
  normalized [] st r h = (st, refl, h, λ k. refl)
  normalized (u ∷ us) st r h = elim (Option-cases (r.records (canon u))) [
    | inl e ↦
        let (st', run, reads, renews) = normalized us st r h in
        (
          st',
          normalize-as u us st _ (h (canon u) ∙ ap as_read e) ∙ run,
          reads,
          skip-Renews u us r st st' e renews,
        )
    | inr (c, e) ↦
        let (st', run, reads, renews) = normalized us _ r (put-ReadsAs u c st r e h) in
        (
          st',
          normalize-as u us st _ (h (canon u) ∙ ap as_read e) ∙ run,
          reads,
          put-Renews u us c r st st' e renews,
        )
  ]

  -- The loop of the migration step over stored entries, where the entry of each key reads as the
  -- record of the registry or as missing, and a written record reads back: the loop ends without a
  -- trap; afterwards every key reads as it does in the registry that `resave` gives; and the entry
  -- of a listed name that had a record is the one written in the current encoding, whatever it was
  -- before, while every other entry is untouched.
  pub normalize-Renews :
      (us : List Username) (st : Stored Entry) (r : Registry)
      → ReadsAs read write st r
      → (st' : Stored Entry) × (normalize read write us st ≡ some st')
        × ReadsAs read write st' (resave us r)
        × Renews read write us r st st'
  normalize-Renews us st r h = rw (resave-same us r) (normalized us st r h)
