-- ===== src/Prelude/Digits.antt =====
-- Numbers as text: `to_string`, and `{:04X}` of `format!`.
use Prim.Native.Nat.{ℕ, zero, suc, ◌+◌, ◌-◌, ◌/◌, ◌%◌}
use mathlib.Core.Bool.{true, false}
use mathlib.Core.List.{[], ◌∷◌, ◌++◌}
use odf_crypto.Prelude.Bools.{ltb, if◌then◌else◌}
use odf_crypto.Prelude.Lists.{length}
use odf_crypto.Prelude.Text.{Str}
use odf_crypto.Prelude.Int.{ℤ, pos, negsuc}

abbrev pub digit_char : ℕ → ℕ
digit_char d = if ltb d 10 then b'0' + d else b'A' + (d - 10)

-- The digits of `n`, at most one more than the fuel; `n` itself is fuel enough.
unfoldable pub digits : ℕ → ℕ → ℕ → Str
digits zero base n = digit_char n ∷ []
digits (suc fuel) base n = elim (ltb n base) [
  | true ↦ digit_char n ∷ []
  | false ↦ digits fuel base (n / base) ++ digit_char (n % base) ∷ []
]

unfoldable pub decimal_text : ℕ → Str
decimal_text n = digits n 10 n

-- `to_string` of a signed number
abbrev pub to_string : ℤ → Str
to_string (pos n) = decimal_text n
to_string (negsuc n) = b'-' ∷ decimal_text (suc n)

abbrev zeros_before : ℕ → Str → Str
zeros_before zero s = s
zeros_before (suc n) s = b'0' ∷ zeros_before n s

-- `{:04X}`
unfoldable pub hex_4 : ℕ → Str
hex_4 n = let s = digits n 16 n in zeros_before (4 - length s) s
