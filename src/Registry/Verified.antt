-- ===== src/Registry/Verified.antt =====
-- How many names of a list have a verified record.
use trustbridge_contract.Base.{
  ℕ, ◌+◌, ◌≡◌, ◌≤◌, refl, true, false, Option, none, some, List, [], ◌∷◌, ◌++◌, arith, length,
  bytes_eq_iff, if◌then◌else◌,
}
use trustbridge_contract.Username.{Username}
use trustbridge_contract.NameList.{mentions, without, Distinct, without_absent}
use trustbridge_contract.Types.{ContributorRecord}
use trustbridge_contract.Types.State.{put_name}

abbrev pub Records : Type 0
Records = Username → Option ContributorRecord

abbrev pub one_if_verified : Option ContributorRecord → ℕ
one_if_verified none = 0
one_if_verified (some c) = if c.verified then 1 else 0

unfoldable pub count_verified : Records → List Username → ℕ
count_verified f [] = 0
count_verified f (u ∷ us) = one_if_verified (f u) + count_verified f us

pub count_verified-le : (f : Records) (us : List Username) → count_verified f us ≤ length us
unfolding count_verified
count_verified-le f [] = omega arith
count_verified-le f (u ∷ us) = ground (arith, count_verified-le f us)

pub count_verified-append :
    (f : Records) (us vs : List Username)
    → count_verified f (us ++ vs) ≡ count_verified f us + count_verified f vs
unfolding count_verified
count_verified-append f [] vs = omega arith
count_verified-append f (u ∷ us) vs = omega (arith, count_verified-append f us vs)

-- A write to a name outside the list is not seen.
pub count_verified-put_absent :
    (f : Records) (t : Username) (o : Option ContributorRecord) (us : List Username)
    → mentions t us ≡ false
    → count_verified (put_name t o f) us ≡ count_verified f us
unfolding count_verified mentions
count_verified-put_absent f t o [] h = refl
count_verified-put_absent f t o (u ∷ us) h = ground (arith, count_verified-put_absent f t o us)

-- A write to a name of the list exchanges its share.
pub count_verified-put :
    (f : Records) (t : Username) (o : Option ContributorRecord) (us : List Username)
    → Distinct us
    → mentions t us ≡ true
    → count_verified (put_name t o f) us + one_if_verified (f t)
      ≡ count_verified f us + one_if_verified o
unfolding count_verified mentions
count_verified-put f t o [] d h = cc
count_verified-put f t o (u ∷ us) d h =
    ground
      (arith, count_verified-put f t o us d.1, count_verified-put_absent f t o us, bytes_eq_iff t u)

pub count_verified-without :
    (f : Records) (t : Username) (us : List Username)
    → Distinct us
    → mentions t us ≡ true
    → count_verified f (without t us) + one_if_verified (f t) ≡ count_verified f us
unfolding count_verified mentions without
count_verified-without f t [] d h = cc
count_verified-without f t (u ∷ us) d h =
    ground (arith, count_verified-without f t us d.1, without_absent t us, bytes_eq_iff t u)

pub count_verified_single :
    (f : Records) (u : Username) → count_verified f (u ∷ []) ≡ one_if_verified (f u)
unfolding count_verified
count_verified_single f u = omega arith
