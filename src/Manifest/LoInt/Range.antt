-- ===== src/Manifest/LoInt/Range.antt =====
-- src/manifest.rs: the results of `parse_i32` and `parse_i64` are in range, for any text.
use odf_crypto.Prelude.{
  ℕ, zero, suc, ◌+◌, ◌-◌, ◌*◌, ◌^◌, ◌%◌, ◌≤◌, ◌<◌, Bool, true, false, not, Option, none, some, [],
  ◌∷◌, ◌≡◌, arith, Str, ◌==◌, if◌then◌else◌, ℤ, pos, negsuc, neg, Fits, i32_bound, i64_bound,
  Bool-cases, inl, inr,
}
use odf_crypto.Manifest.LoInt.{
  is_ascii_digit, overflows, digits_loop, parse_magnitude, parse_signed, parse_lo_int, as_i32,
  parse_i32, parse_i64, skip_whitespace,
}
use odf_crypto.Manifest.LoInt.Value.{overflows_exact}

-- The accumulator stays within the limit.
abbrev Within : ℕ → Option (ℕ × Bool) → Type 0
Within limit none = Unit
Within limit (some (v, saw)) = v ≤ limit

digits_loop-Within :
    (limit n : ℕ) (saw : Bool) (s : Str) → n ≤ limit → Within limit (digits_loop limit n saw s)
unfolding digits_loop
digits_loop-Within limit n saw [] h = h
digits_loop-Within limit n saw (c ∷ s) h =
    let later = digits_loop-Within limit ((n * 10 + (c - b'0')) % 2 ^ 64) true s in
    elim (Bool-cases (is_ascii_digit c)) [
      | inr stop ↦ rw (stop, digits_loop) h
      | inl d ↦ elim (Bool-cases (overflows limit n (c - b'0'))) [
        | inl over ↦ rw (d, over, digits_loop) tt
        | inr fits ↦
            rw (d, fits, digits_loop) (later (ground (arith, overflows_exact limit n (c - b'0'))))
      ]
    ]

neg-Fits : (bound n : ℕ) → 0 < bound → n ≤ bound → Fits bound (neg n)
neg-Fits bound zero h k = h
neg-Fits bound (suc n) h k = k

module _ (max : ℕ) where
  abbrev finish : Bool → Option (ℕ × Bool) → ℤ
  finish is_neg none = pos 0
  finish is_neg (some (n, saw_digit)) =
      if not saw_digit
      then pos 0
      else if is_neg
      then (if n == suc max then negsuc max else neg n)
      else pos n

  finish-Fits :
      (is_neg : Bool) (o : Option (ℕ × Bool))
      → Within (if is_neg then suc max else max) o
      → Fits (suc max) (finish is_neg o)
  finish-Fits is_neg none h = omega arith
  finish-Fits true (some (n, false)) h = omega arith
  finish-Fits false (some (n, false)) h = omega arith
  finish-Fits false (some (n, true)) h = omega arith
  finish-Fits true (some (n, true)) h = elim (Bool-cases (n == suc max)) [
    | inl e ↦ rw e (omega arith)
    | inr e ↦ rw e (neg-Fits (suc max) n (omega arith) h)
  ]

  parse_magnitude-Fits :
      (is_neg : Bool) (s : Str) → Fits (suc max) (parse_magnitude is_neg s (negsuc max) max)
  unfolding parse_magnitude
  parse_magnitude-Fits true s =
      finish-Fits true _ (digits_loop-Within (suc max) 0 false s (omega arith))
  parse_magnitude-Fits false s =
      finish-Fits false _ (digits_loop-Within max 0 false s (omega arith))

  parse_signed-Fits : (s : Str) → Fits (suc max) (parse_signed s (negsuc max) max)
  unfolding parse_signed
  parse_signed-Fits [] = omega arith
  parse_signed-Fits (c ∷ s) = elim (Bool-cases (c == b'-')) [
    | inl e ↦ rw e (parse_magnitude-Fits true s)
    | inr e ↦ elim (Bool-cases (c == b'+')) [
      | inl f ↦ rw (e, f) (parse_magnitude-Fits false s)
      | inr f ↦ rw (e, f) (parse_magnitude-Fits false (c ∷ s))
    ]
  ]

  parse_lo_int-Fits : (s : Str) → Fits (suc max) (parse_lo_int s (negsuc max) max)
  unfolding parse_lo_int
  parse_lo_int-Fits s = parse_signed-Fits (skip_whitespace s)

as_i32-of_Fits : (a : ℤ) → Fits i32_bound a → as_i32 a ≡ a
unfolding as_i32
as_i32-of_Fits (pos n) h = ground arith
as_i32-of_Fits (negsuc n) h = ground arith

-- For any text, `parse_i32` and `parse_i64` are in the range of their type, and the cast in
-- `parse_i32` loses nothing.
pub parse_int_range :
    (s : Str)
    → Fits i32_bound (parse_i32 s)
      × (parse_i32 s ≡ parse_lo_int s (negsuc (2 ^ 31 - 1)) (2 ^ 31 - 1))
      × Fits i64_bound (parse_i64 s)
unfolding parse_i32 parse_i64
parse_int_range s =
    let fits : Fits i32_bound (parse_lo_int s (negsuc (2 ^ 31 - 1)) (2 ^ 31 - 1)) =
      parse_lo_int-Fits (2 ^ 31 - 1) s in
    let same = as_i32-of_Fits _ fits in (rw same fits, same, parse_lo_int-Fits (2 ^ 63 - 1) s)
