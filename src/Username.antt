-- ===== src/Username.antt =====
-- GitHub usernames (src/utils.rs): validation, case-insensitive comparison and the canonical form
-- under which the storage layer keys every name. A soroban `String` is the list of its bytes.
pub mod Lower
pub mod Canonical
pub mod Valid
pub mod Percentage
use trustbridge_contract.Base.{
  ℕ, ◌+◌, ◌-◌, ◌*◌, ◌/◌, Bool, true, false, not, ◌&&◌, ◌||◌, Option, none, some, List, [], ◌∷◌, map,
  ltb, leb, ◌==◌, if◌then◌else◌, length, bytes_eq,
}

abbrev pub Username : Type 0
Username = List ℕ

-- `MAX_USERNAME_LEN` and `USERNAME_BUF`.
abbrev pub max_username_len : ℕ
max_username_len = 39

abbrev pub username_buf : ℕ
username_buf = 64

-- `u8::is_ascii`, `u8::is_ascii_alphanumeric` and `u8::to_ascii_lowercase`.
abbrev pub is_ascii : ℕ → Bool
is_ascii b = leb b 127

unfoldable pub is_ascii_alphanumeric : ℕ → Bool
is_ascii_alphanumeric b =
    (leb b'0' b && leb b b'9') || (leb b'A' b && leb b b'Z') || (leb b'a' b && leb b b'z')

unfoldable pub to_ascii_lowercase : ℕ → ℕ
to_ascii_lowercase b = if leb b'A' b && leb b b'Z' then b + 32 else b

-- `copy_into_buf`: the bytes, unless the name is empty or longer than the buffer.
unfoldable pub copy_into_buf : Username → Option (List ℕ)
copy_into_buf s = if (length s == 0) || ltb username_buf (length s) then none else some s

-- The loop of `is_valid_github_username`, with its flag `prev_was_hyphen`.
unfoldable pub scan : Bool → List ℕ → Bool
scan prev_was_hyphen [] = true
scan prev_was_hyphen (b ∷ bytes) =
    (if not (is_ascii b)
      then false
      else if b == b'-'
      then not prev_was_hyphen
      else is_ascii_alphanumeric b || b == b'_')
    && scan (b == b'-') bytes

-- `bytes[0]` and `bytes[len - 1]`, read where `copy_into_buf` has shown that there is a byte.
abbrev pub first_byte : List ℕ → ℕ
first_byte [] = 0
first_byte (b ∷ bytes) = b

abbrev pub last_byte : List ℕ → ℕ
last_byte [] = 0
last_byte (b ∷ []) = b
last_byte (b ∷ c ∷ bytes) = last_byte (c ∷ bytes)

unfoldable pub is_valid_github_username : Username → Bool
is_valid_github_username s =
    if ltb max_username_len (length s) then false else elim (copy_into_buf s) [
      | none ↦ false
      | some bytes ↦
          if not (is_ascii_alphanumeric (first_byte bytes))
            || not (is_ascii_alphanumeric (last_byte bytes))
          then false
          else scan false bytes
    ]

-- `zip(..).all(|(x, y)| x.eq_ignore_ascii_case(y))`.
unfoldable pub all_eq_ignore_case : List ℕ → List ℕ → Bool
all_eq_ignore_case [] ys = true
all_eq_ignore_case (x ∷ xs) [] = true
all_eq_ignore_case (x ∷ xs) (y ∷ ys) =
    (to_ascii_lowercase x == to_ascii_lowercase y) && all_eq_ignore_case xs ys

unfoldable pub eq_ignore_ascii_case : Username → Username → Bool
eq_ignore_ascii_case a b =
    if not (length a == length b)
    then false
    else if length a == 0
    then true
    else elim (copy_into_buf a) [
      | none ↦ false
      | some x ↦ elim (copy_into_buf b) [ none ↦ false | some y ↦ all_eq_ignore_case x y ]
    ]

-- `core::str::from_utf8`, as the test of well-formed UTF-8 that the standard library documents:
-- how many continuation bytes are due, and the range of the next one.
pub record Due : Type 0 where
  pub more : ℕ
  pub low : ℕ
  pub high : ℕ

abbrev due : ℕ → ℕ → ℕ → Option Due
due n lo hi = some (record { more = n; low = lo; high = hi })

unfoldable pub lead : ℕ → Option Due
lead b =
    if leb b 0x7F
    then due 0 0 0
    else if ltb b 0xC2
    then none
    else if leb b 0xDF
    then due 1 0x80 0xBF
    else if b == 0xE0
    then due 2 0xA0 0xBF
    else if b == 0xED
    then due 2 0x80 0x9F
    else if leb b 0xEF
    then due 2 0x80 0xBF
    else if b == 0xF0
    then due 3 0x90 0xBF
    else if leb b 0xF3
    then due 3 0x80 0xBF
    else if b == 0xF4
    then due 3 0x80 0x8F
    else none

unfoldable pub utf8_step : Due → ℕ → Option Due
unfolding lead
utf8_step d b =
    if d.more == 0
    then lead b
    else if leb d.low b && leb b d.high
    then due (d.more - 1) 0x80 0xBF
    else none

unfoldable pub utf8_from : Option Due → List ℕ → Bool
utf8_from none bytes = false
utf8_from (some d) [] = d.more == 0
utf8_from (some d) (b ∷ bytes) = utf8_from (utf8_step d b) bytes

abbrev pub is_utf8 : List ℕ → Bool
is_utf8 = utf8_from (due 0 0 0)

-- The name in lower case, unless it is empty, too long for the buffer, or no UTF-8.
unfoldable pub canonicalize_username : Username → Username
canonicalize_username s =
    if (length s == 0) || ltb username_buf (length s)
    then s
    else let lowered = map to_ascii_lowercase s in if is_utf8 lowered then lowered else s

-- `calculate_verification_percentage`: rounded to the nearest percent. The products are u64.
unfoldable pub calculate_verification_percentage : ℕ → ℕ → ℕ
calculate_verification_percentage verified total =
    if (total == 0) || (verified == 0)
    then 0
    else if leb total verified
    then 100
    else (verified * 100 + total / 2) / total
