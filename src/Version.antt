-- ===== src/Version.antt =====
-- `Version` of src/version.rs: comparison, bumps, and the report on an upgrade.
pub mod Order
use trustbridge_contract.Base.{
  ℕ, ◌+◌, Bool, true, false, not, ◌&&◌, ◌||◌, Option, none, some, ltb, leb, ◌==◌, if◌then◌else◌,
  u32_max,
}
use trustbridge_contract.Types.{VersionTuple}

pub record Version : Type 0 where
  pub major : ℕ
  pub minor : ℕ
  pub patch : ℕ

unfoldable pub from_tuple : VersionTuple → Version
from_tuple (a, b, c) = record { major = a; minor = b; patch = c }

unfoldable pub to_tuple : Version → VersionTuple
to_tuple v = (v.major, v.minor, v.patch)

-- The derived `==` and `!=`.
unfoldable pub version_eq : Version → Version → Bool
version_eq v w = v.major == w.major && v.minor == w.minor && v.patch == w.patch

unfoldable pub is_compatible_with : Version → Version → Bool
is_compatible_with v minimum =
    if not (v.major == minimum.major)
    then ltb minimum.major v.major
    else if not (v.minor == minimum.minor)
    then ltb minimum.minor v.minor
    else leb minimum.patch v.patch

-- `BATCH_VERIFY_MIN_VERSION` and `CROSS_CONTRACT_READ_MIN_VERSION`.
abbrev pub batch_verify_min_version : Version
batch_verify_min_version = record { major = 1; minor = 1; patch = 0 }

abbrev pub cross_contract_read_min_version : Version
cross_contract_read_min_version = record { major = 1; minor = 0; patch = 0 }

unfoldable pub supports_batch_verify : Version → Bool
supports_batch_verify v = is_compatible_with v batch_verify_min_version

unfoldable pub supports_cross_contract_reads : Version → Bool
supports_cross_contract_reads v = is_compatible_with v cross_contract_read_min_version

unfoldable pub needs_migration : Version → Version → Bool
unfolding version_eq
needs_migration v target = not (version_eq v target) && leb v.major target.major

-- `+ 1` on u32, which aborts on an overflow.
abbrev pub next_part : ℕ → Option ℕ
next_part n = if leb u32_max n then none else some (n + 1)

unfoldable pub bump_patch : Version → Option Version
bump_patch v = elim (next_part v.patch) [ none ↦ none | some n ↦ some (record v { patch = n }) ]

unfoldable pub bump_minor : Version → Option Version
bump_minor v = elim (next_part v.minor) [
  | none ↦ none
  | some n ↦ some (record { major = v.major; minor = n; patch = 0 })
]

unfoldable pub bump_major : Version → Option Version
bump_major v = elim (next_part v.major) [
  | none ↦ none
  | some n ↦ some (record { major = n; minor = 0; patch = 0 })
]

pub record CompatibilityInfo : Type 0 where
  pub current_version : Version
  pub target_version : Version
  pub migration_required : Bool
  pub breaking_changes : Bool
  pub data_migration_required : Bool

unfoldable pub for_upgrade : Version → Version → CompatibilityInfo
for_upgrade current target =
    let breaking = not (current.major == target.major) in
    record {
      current_version = current;
      target_version = target;
      migration_required = needs_migration current target;
      breaking_changes = breaking;
      data_migration_required = breaking || not (current.minor == target.minor);
    }

-- The derived order of tuples: `<` of a version on the left.
unfoldable pub tuple_ltb : VersionTuple → VersionTuple → Bool
tuple_ltb (a, b, c) (x, y, z) = ltb a x || (a == x && (ltb b y || (b == y && ltb c z)))
