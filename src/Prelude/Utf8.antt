-- ===== src/Prelude/Utf8.antt =====
-- `String::from_utf8`: bytes as text, if they are the UTF-8 encoding of scalar values.
use Prim.Native.Nat.{ℕ, ◌+◌, ◌-◌, ◌*◌}
use mathlib.Core.Bool.{Bool, not, ◌&&◌}
use mathlib.Core.Option.{Option, none, some}
use mathlib.Core.List.{[], ◌∷◌, ◌++◌}
use odf_crypto.Prelude.Bools.{ltb, leb, ◌==◌, in_range, if◌then◌else◌}
use odf_crypto.Prelude.Text.{Str, Bytes}

-- How many bytes of a sequence are left, the bits read, and the least value that needs a sequence
-- of that length.
pub record Sequence : Type 0 where
  pub left : ℕ
  pub bits : ℕ
  pub least : ℕ

abbrev pub no_sequence : Sequence
no_sequence = record { left = 0; bits = 0; least = 0 }

abbrev pub is_scalar : ℕ → Bool
is_scalar c = leb c 0x10FFFF && not (in_range 0xD800 0xDFFF c)

-- The first byte of a sequence: a character of its own, or a longer sequence.
abbrev lead : ℕ → Option (Sequence × Str)
lead b =
    if ltb b 0x80
    then some (no_sequence, b ∷ [])
    else if in_range 0xC2 0xDF b
    then some (record { left = 1; bits = b - 0xC0; least = 0x80 }, [])
    else if in_range 0xE0 0xEF b
    then some (record { left = 2; bits = b - 0xE0; least = 0x800 }, [])
    else if in_range 0xF0 0xF4 b
    then some (record { left = 3; bits = b - 0xF0; least = 0x10000 }, [])
    else none

-- The sequence with the bits of one more byte, which may end it.
abbrev extended : Sequence → ℕ → Option (Sequence × Str)
extended s bits =
    if not (s.left == 1)
    then some (record s { left = s.left - 1; bits = bits }, [])
    else if leb s.least bits && is_scalar bits
    then some (no_sequence, bits ∷ [])
    else none

unfoldable pub utf8_step : Sequence → ℕ → Option (Sequence × Str)
utf8_step s b =
    if s.left == 0
    then lead b
    else if in_range 0x80 0xBF b
    then extended s (s.bits * 64 + (b - 0x80))
    else none

-- The text before with the rest, if there is one.
abbrev pub onto_rest : Str → Option Str → Option Str
onto_rest s none = none
onto_rest s (some t) = some (s ++ t)

unfoldable pub utf8_from : Sequence → Bytes → Option Str
utf8_from s [] = if s.left == 0 then some [] else none
utf8_from s (b ∷ bytes) = elim (utf8_step s b) [
  | none ↦ none
  | some (next, out) ↦ onto_rest out (utf8_from next bytes)
]

unfoldable pub from_utf8 : Bytes → Option Str
from_utf8 = utf8_from no_sequence
