-- ===== src/NameList.antt =====
-- Lists of names as the storage layer keeps them, read and rebuilt by loops over `==`.
use trustbridge_contract.Base.{
  ◌+◌, ◌≡◌, refl, Bool, true, false, not, ◌&&◌, ◌||◌, List, [], ◌∷◌, ◌++◌, arith, ⊤, length,
  bytes_eq, bytes_eq_iff, if◌then◌else◌,
}
use trustbridge_contract.Username.{Username}

-- Whether the name is on the list, and the list with every such entry left out.
unfoldable pub mentions : Username → List Username → Bool
mentions t [] = false
mentions t (u ∷ us) = bytes_eq t u || mentions t us

unfoldable pub without : Username → List Username → List Username
without t [] = []
without t (u ∷ us) = if bytes_eq t u then without t us else u ∷ without t us

-- No name stands twice.
abbrev pub Distinct : List Username → Type 0
Distinct [] = ⊤
Distinct (u ∷ us) = (mentions u us ≡ false) × Distinct us

pub mentions-append :
    (t : Username) (us vs : List Username)
    → mentions t (us ++ vs) ≡ (mentions t us || mentions t vs)
unfolding mentions
mentions-append t [] vs = refl
mentions-append t (u ∷ us) vs = ground (arith, mentions-append t us vs)

pub without-append :
    (t : Username) (us vs : List Username) → without t (us ++ vs) ≡ without t us ++ without t vs
unfolding without
without-append t [] vs = refl
without-append t (u ∷ us) vs = ground (arith, without-append t us vs)

pub without_absent : (t : Username) (us : List Username) → mentions t us ≡ false → without t us ≡ us
unfolding mentions without
without_absent t [] h = refl
without_absent t (u ∷ us) h = ground (arith, without_absent t us)

pub mentions-without :
    (v t : Username) (us : List Username)
    → mentions v (without t us) ≡ (not (bytes_eq t v) && mentions v us)
unfolding mentions without
mentions-without v t [] = ground arith
mentions-without v t (u ∷ us) =
    ground (arith, mentions-without v t us, bytes_eq_iff t u, bytes_eq_iff t v, bytes_eq_iff v u)

pub Distinct-without : (t : Username) (us : List Username) → Distinct us → Distinct (without t us)
unfolding without
Distinct-without t [] h = tt
Distinct-without t (u ∷ us) h = ground (arith, Distinct-without t us h.1, mentions-without u t us)

pub length-without :
    (t : Username) (us : List Username)
    → Distinct us
    → mentions t us ≡ true
    → length (without t us) + 1 ≡ length us
unfolding mentions without
length-without t [] h m = cc
length-without t (u ∷ us) h m =
    ground (arith, length-without t us h.1, without_absent t us, bytes_eq_iff t u)

pub Distinct-snoc :
    (us : List Username) (t : Username)
    → Distinct us
    → mentions t us ≡ false
    → Distinct (us ++ t ∷ [])
unfolding mentions
Distinct-snoc [] t h m = (refl, tt)
Distinct-snoc (u ∷ us) t h m = ground (
  arith,
  Distinct-snoc us t h.1,
  mentions-append u us (t ∷ []),
  bytes_eq_iff u t,
  bytes_eq_iff t u,
)

-- Distinctness of a concatenation: the parts are distinct and share no name.
pub Distinct-append_left : (us vs : List Username) → Distinct (us ++ vs) → Distinct us
Distinct-append_left [] vs h = tt
Distinct-append_left (u ∷ us) vs h =
    ground (arith, Distinct-append_left us vs h.1, mentions-append u us vs)

pub Distinct-append_right : (us vs : List Username) → Distinct (us ++ vs) → Distinct vs
Distinct-append_right [] vs h = h
Distinct-append_right (u ∷ us) vs h = Distinct-append_right us vs h.1

pub Distinct-append_apart :
    (us vs : List Username) (t : Username)
    → Distinct (us ++ vs)
    → mentions t us ≡ true
    → mentions t vs ≡ false
unfolding mentions
Distinct-append_apart [] vs t h m = cc
Distinct-append_apart (u ∷ us) vs t h m =
    ground (arith, Distinct-append_apart us vs t h.1, mentions-append u us vs, bytes_eq_iff t u)
