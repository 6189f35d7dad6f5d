-- ===== src/Manifest/LoInt.antt =====
-- src/manifest.rs: `parse_i32` and `parse_i64`, LibreOffice's `toInt32` and `toInt64`.
pub mod Value
pub mod Range
use odf_crypto.Prelude.{
  ℕ, ◌+◌, ◌-◌, ◌*◌, ◌/◌, ◌%◌, ◌^◌, Bool, true, false, not, ◌&&◌, ◌||◌, Option, none, some, [], ◌∷◌,
  Str, ltb, leb, ◌==◌, if◌then◌else◌, in_range, ℤ, pos, negsuc, neg, unsigned_abs,
}

unfoldable pub lo_is_whitespace : ℕ → Bool
lo_is_whitespace u =
    if leb u 32 && not (u == 0)
    then true
    else if not (in_range 0x2000 0x2029 u)
    then false
    else leb u 0x200B || leb 0x2028 u

abbrev pub is_ascii_digit : ℕ → Bool
is_ascii_digit = in_range b'0' b'9'

unfoldable pub skip_whitespace : Str → Str
skip_whitespace [] = []
skip_whitespace (c ∷ s) = elim (lo_is_whitespace c) [ true ↦ skip_whitespace s | false ↦ c ∷ s ]

-- `n > div || (n == div && d > rem)`, for the quotient and remainder of `limit` by 10
abbrev pub overflows : ℕ → ℕ → ℕ → Bool
overflows limit n d = ltb (limit / 10) n || (n == limit / 10 && ltb (limit % 10) d)

-- The `u64` accumulator and `saw_digit` when the digits end; `none` is the early `return 0`.
unfoldable pub digits_loop : ℕ → ℕ → Bool → Str → Option (ℕ × Bool)
digits_loop limit n saw_digit [] = some (n, saw_digit)
digits_loop limit n saw_digit (c ∷ s) = elim (is_ascii_digit c) [
  | false ↦ some (n, saw_digit)
  | true ↦ elim (overflows limit n (c - b'0')) [
    | true ↦ none
    | false ↦ digits_loop limit ((n * 10 + (c - b'0')) % 2 ^ 64) true s
  ]
]

-- What stands behind the sign.
unfoldable pub parse_magnitude : Bool → Str → ℤ → ℕ → ℤ
parse_magnitude is_neg s min max =
    elim (digits_loop (if is_neg then unsigned_abs min else max) 0 false s) [
      | none ↦ pos 0
      | some (n, saw_digit) ↦
          if not saw_digit
          then pos 0
          else if is_neg
          then (if n == unsigned_abs min then min else neg n)
          else pos n
    ]

unfoldable pub parse_signed : Str → ℤ → ℕ → ℤ
parse_signed [] min max = pos 0
parse_signed (c ∷ s) min max =
    if c == b'-'
    then parse_magnitude true s min max
    else if c == b'+'
    then parse_magnitude false s min max
    else parse_magnitude false (c ∷ s) min max

unfoldable pub parse_lo_int : Str → ℤ → ℕ → ℤ
parse_lo_int s = parse_signed (skip_whitespace s)

-- `as i32`: the value modulo 2 ^ 32, between -2 ^ 31 and 2 ^ 31 - 1.
unfoldable pub as_i32 : ℤ → ℤ
as_i32 (pos n) =
    if ltb (n % 2 ^ 32) (2 ^ 31) then pos (n % 2 ^ 32) else negsuc (2 ^ 32 - 1 - n % 2 ^ 32)
as_i32 (negsuc n) =
    if ltb (n % 2 ^ 32) (2 ^ 31) then negsuc (n % 2 ^ 32) else pos (2 ^ 32 - 1 - n % 2 ^ 32)

unfoldable pub parse_i32 : Str → ℤ
parse_i32 s = as_i32 (parse_lo_int s (negsuc (2 ^ 31 - 1)) (2 ^ 31 - 1))

unfoldable pub parse_i64 : Str → ℤ
parse_i64 s = parse_lo_int s (negsuc (2 ^ 63 - 1)) (2 ^ 63 - 1)
