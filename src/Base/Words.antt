-- ===== src/Base/Words.antt =====
-- Unsigned machine words: u32 and u64 as natural numbers, with the arithmetic the contract uses.
use Prim.Native.Nat.{ℕ, ◌+◌, ◌%◌, min}

abbrev pub u32_max : ℕ
u32_max = 4294967295

abbrev pub u64_max : ℕ
u64_max = 18446744073709551615

-- `saturating_add` of u32 and of u64. `saturating_sub` is `◌-◌`, which stops at 0.
abbrev pub saturating_add_u32 : ℕ → ℕ → ℕ
saturating_add_u32 a b = min (a + b) u32_max

abbrev pub saturating_add_u64 : ℕ → ℕ → ℕ
saturating_add_u64 a b = min (a + b) u64_max

-- `wrapping_add` of u32.
abbrev pub wrapping_add_u32 : ℕ → ℕ → ℕ
wrapping_add_u32 a b = (a + b) % 4294967296

-- `x as u32`.
abbrev pub as_u32 : ℕ → ℕ
as_u32 x = x % 4294967296
