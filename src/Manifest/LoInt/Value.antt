-- ===== src/Manifest/LoInt/Value.antt =====
-- src/manifest.rs: what `parse_lo_int` reads, against the value of a run of digits.
use odf_crypto.Prelude.{
  ℕ, suc, ◌+◌, ◌-◌, ◌*◌, ◌^◌, ◌%◌, ◌≤◌, ◌<◌, Bool, true, false, not, ◌||◌, Option, none, some, [],
  ◌∷◌, ◌++◌, ◌≡◌, refl, arith, Str, leb, if◌then◌else◌, All, ℤ, pos, negsuc, neg, Bool-cases,
  is_empty, inl, inr,
}
use odf_crypto.Manifest.LoInt.{
  lo_is_whitespace, is_ascii_digit, skip_whitespace, overflows, digits_loop, parse_magnitude,
  parse_signed, parse_lo_int,
}

abbrev pub IsDigit : ℕ → Type 0
IsDigit c = is_ascii_digit c ≡ true

abbrev pub IsSpace : ℕ → Type 0
IsSpace c = lo_is_whitespace c ≡ true

-- `n` with the digits behind it.
abbrev pub value_from : ℕ → Str → ℕ
value_from n [] = n
value_from n (c ∷ ds) = value_from (n * 10 + (c - b'0')) ds

-- No digit stands in front.
abbrev pub Stops : Str → Type 0
Stops [] = Unit
Stops (c ∷ s) = is_ascii_digit c ≡ false

le-value_from : (n : ℕ) (ds : Str) → n ≤ value_from n ds
le-value_from n [] = omega arith
le-value_from n (c ∷ ds) = omega (arith, le-value_from (n * 10 + (c - b'0')) ds)

-- The guard in front of the multiplication is exact.
pub overflows_exact : (limit n d : ℕ) → d < 10 → overflows limit n d ≡ not (leb (n * 10 + d) limit)
overflows_exact limit n d h = ground arith

module _ (limit : ℕ) (small : limit < 2 ^ 64) where
  abbrev pub read : Bool → ℕ → Option (ℕ × Bool)
  read saw v = if leb v limit then some (v, saw) else none

  digits_loop-digit :
      (n : ℕ) (saw : Bool) (c : ℕ) (s : Str)
      → IsDigit c
      → digits_loop limit n saw (c ∷ s) ≡ (
          if leb (n * 10 + (c - b'0')) limit
          then digits_loop limit (n * 10 + (c - b'0')) true s
          else none)
  unfolding digits_loop
  digits_loop-digit n saw c s d =
      let e = overflows_exact limit n (c - b'0') (ground arith) in
      elim (Bool-cases (leb (n * 10 + (c - b'0')) limit)) [
        | inl fits ↦
            let m : (n * 10 + (c - b'0')) % 2 ^ 64 ≡ n * 10 + (c - b'0') = ground arith in
            rw (d, e, fits, digits_loop) (rw m)
        | inr over ↦ rw (d, e, over, digits_loop)
      ]

  -- The loop reads a run of digits as its value, if that is within the limit.
  pub digits_loop-value :
      (n : ℕ) (saw : Bool) (ds rest : Str)
      → n ≤ limit
      → All IsDigit ds
      → Stops rest
      → digits_loop limit n saw (ds ++ rest) ≡ read (saw || not (is_empty ds)) (value_from n ds)
  digits_loop-value n saw [] [] h all stop = unfold digits_loop in ground arith
  digits_loop-value n saw [] (c ∷ rest) h all stop = unfold digits_loop in ground arith
  digits_loop-value n saw (c ∷ ds) rest h all stop =
      elim (Bool-cases (leb (n * 10 + (c - b'0')) limit)) [
        | inl fits ↦
            rw (digits_loop-digit n saw c (ds ++ rest) all.0, fits)
              (ground (
                arith,
                digits_loop-value (n * 10 + (c - b'0')) true ds rest (ground arith) all.1 stop,
              ))
        | inr over ↦
            rw (digits_loop-digit n saw c (ds ++ rest) all.0, over)
              (ground (arith, le-value_from (n * 10 + (c - b'0')) ds))
      ]

skip_whitespace-append :
    (ws s : Str) → All IsSpace ws → skip_whitespace (ws ++ s) ≡ skip_whitespace s
unfolding skip_whitespace
skip_whitespace-append [] s h = refl
skip_whitespace-append (c ∷ ws) s h = rw (h.0, skip_whitespace) (skip_whitespace-append ws s h.1)

-- The optional minus sign in front of a run of digits.
abbrev pub signed : Bool → Str → Str
signed true s = b'-' ∷ s
signed false s = s

abbrev pub signed_value : Bool → ℕ → ℤ
signed_value true v = neg v
signed_value false v = pos v

module _ (max : ℕ) (small : max < 2 ^ 64 - 1) where
  abbrev pub limit_of : Bool → ℕ
  limit_of true = suc max
  limit_of false = max

  abbrev pub clipped : Bool → ℕ → ℤ
  clipped is_neg v = if leb v (limit_of is_neg) then signed_value is_neg v else pos 0

  parse_magnitude-value :
      (is_neg : Bool) (c : ℕ) (ds rest : Str)
      → All IsDigit (c ∷ ds)
      → Stops rest
      → parse_magnitude is_neg (c ∷ ds ++ rest) (negsuc max) max
        ≡ clipped is_neg (value_from 0 (c ∷ ds))
  unfolding parse_magnitude
  parse_magnitude-value true c ds rest all stop = ground (
    arith,
    digits_loop-value (suc max) (omega arith) 0 false (c ∷ ds) rest (omega arith) all stop,
  )
  parse_magnitude-value false c ds rest all stop =
      ground
        (arith, digits_loop-value max (omega arith) 0 false (c ∷ ds) rest (omega arith) all stop)

  -- Behind white space, a run of digits with an optional minus sign is read as its value, and as 0
  -- where that is out of range; what follows the digits is ignored.
  pub parse_lo_int-digits :
      (ws : Str) (is_neg : Bool) (c : ℕ) (ds rest : Str)
      → All IsSpace ws
      → All IsDigit (c ∷ ds)
      → Stops rest
      → parse_lo_int (ws ++ signed is_neg (c ∷ ds ++ rest)) (negsuc max) max
        ≡ clipped is_neg (value_from 0 (c ∷ ds))
  unfolding parse_lo_int parse_signed lo_is_whitespace skip_whitespace
  parse_lo_int-digits ws true c ds rest spaces all stop =
      rw (skip_whitespace-append ws (b'-' ∷ (c ∷ ds ++ rest)) spaces)
        (parse_magnitude-value true c ds rest all stop)
  parse_lo_int-digits ws false c ds rest spaces all stop =
      rw (skip_whitespace-append ws (c ∷ ds ++ rest) spaces)
        (ground (arith, parse_magnitude-value false c ds rest all stop))
