-- ===== src/Version/Order.antt =====
-- Versions (src/version.rs) as numbers: comparison, bumps and the need of a migration.
use trustbridge_contract.Base.{
  ℕ, ◌+◌, ◌*◌, ◌<◌, ◌≤◌, ◌≡◌, ◌≢◌, true, false, some, leb, ltb, ◌⊎◌, inl, inr, arith, u32_max,
}
use trustbridge_contract.Types.{VersionTuple}
use trustbridge_contract.Version.{
  Version, is_compatible_with, needs_migration, version_eq, bump_patch, bump_minor, bump_major,
  tuple_ltb, from_tuple,
}

-- A version as one number with three digits of 32 bits.
abbrev pub weight : Version → ℕ
weight v = v.major * 18446744073709551616 + v.minor * 4294967296 + v.patch

-- The parts fit u32.
pub record Fits (v : Version) : Type 0 where
  pub major : v.major ≤ u32_max
  pub minor : v.minor ≤ u32_max
  pub patch : v.patch ≤ u32_max

-- `is_compatible_with` on versions whose parts fit u32 compares the two numbers that the three
-- parts form as digits of 32 bits: the patch part counts only where the major and the minor parts
-- are equal.
pub is_compatible-weight :
    (v w : Version) → Fits v → Fits w → is_compatible_with v w ≡ leb (weight w) (weight v)
unfolding is_compatible_with
is_compatible-weight v w h k = ground (arith, h.major, h.minor, h.patch, k.major, k.minor, k.patch)

pub tuple_ltb-weight :
    (t u : VersionTuple)
    → Fits (from_tuple t)
    → Fits (from_tuple u)
    → tuple_ltb t u ≡ ltb (weight (from_tuple t)) (weight (from_tuple u))
unfolding tuple_ltb from_tuple
tuple_ltb-weight (a, b, c) (x, y, z) h k =
    ground (arith, h.major, h.minor, h.patch, k.major, k.minor, k.patch)

-- What lies above in weight, with a larger or equal major part.
Above : Version → Version → Type 0
Above v w =
    Fits w
    × (weight v < weight w)
    × (is_compatible_with w v ≡ true)
    × (is_compatible_with v w ≡ false)
    × (needs_migration v w ≡ true)

heavier : (v w : Version) → Fits v → Fits w → weight v < weight w → v.major ≤ w.major → Above v w
unfolding Above needs_migration version_eq
heavier v w h k l m = (
  k,
  l,
  ground (arith, is_compatible-weight w v k h),
  ground (arith, is_compatible-weight v w h k),
  ground arith,
)

at_patch : (v w : Version) → Fits v → bump_patch v ≡ some w → Above v w
unfolding bump_patch
at_patch v w h e =
    let fits : Fits w = record {
      major = ground arith;
      minor = ground arith;
      patch = ground arith;
    } in
    heavier v w h fits (ground arith) (ground arith)

at_minor : (v w : Version) → Fits v → bump_minor v ≡ some w → Above v w
unfolding bump_minor
at_minor v w h e =
    let fits : Fits w = record {
      major = ground arith;
      minor = ground arith;
      patch = ground arith;
    } in
    heavier v w h fits (ground arith) (ground arith)

at_major : (v w : Version) → Fits v → bump_major v ≡ some w → Above v w
unfolding bump_major
at_major v w h e =
    let fits : Fits w = record {
      major = ground arith;
      minor = ground arith;
      patch = ground arith;
    } in
    heavier v w h fits (ground arith) (ground arith)

pub bump-above :
    (v w : Version)
    → Fits v
    → (bump_patch v ≡ some w) ⊎ (bump_minor v ≡ some w) ⊎ (bump_major v ≡ some w)
    → Fits w
      × (weight v < weight w)
      × (is_compatible_with w v ≡ true)
      × (is_compatible_with v w ≡ false)
      × (needs_migration v w ≡ true)
unfolding Above
bump-above v w h (inl e) = at_patch v w h e
bump-above v w h (inr (inl e)) = at_minor v w h e
bump-above v w h (inr (inr e)) = at_major v w h e

pub needs_migration-both_ways :
    (v w : Version)
    → v.major ≡ w.major
    → v ≢ w
    → (needs_migration v w ≡ true) × (needs_migration w v ≡ true)
unfolding needs_migration version_eq
needs_migration-both_ways v w e ne = ground arith
