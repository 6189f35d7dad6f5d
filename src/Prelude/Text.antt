-- ===== src/Prelude/Text.antt =====
-- A `str` is the list of its Unicode scalar values; `codes` reads a literal. Indices into a `str`
-- do not occur: a slice at the first or last separator is the pair of the two parts.
use Prim.Native.Nat.{ℕ, ◌+◌, ◌/◌, ◌%◌}
use Prim.Native.Char.{code}
use Prim.Native.String.{String}
use mathlib.Core.Path.{◌≡◌, refl}
use mathlib.Core.Logic.{◌↔◌, inl, inr}
use mathlib.Core.Bool.{Bool, true, false, ◌&&◌, ◌||◌}
use mathlib.Core.Option.{Option, none, some}
use mathlib.Core.List.{List, [], ◌∷◌, ◌++◌, map}
use native.Mathlib.Omega.{arith}
use odf_crypto.Prelude.Bools.{Bool-cases, ltb, ◌==◌, if◌then◌else◌, in_range}
use odf_crypto.Prelude.Lists.{is_empty}

abbrev pub Str : Type 0
Str = List ℕ

abbrev pub Bytes : Type 0
Bytes = List ℕ

abbrev pub codes : String → Str
codes String.[] = []
codes (String.◌∷◌ c s) = code c ∷ codes s

unfoldable pub str_eq : Str → Str → Bool
str_eq [] [] = true
str_eq (x ∷ xs) (y ∷ ys) = x == y && str_eq xs ys
str_eq _ _ = false

pub str_eq_iff : (s t : Str) → (str_eq s t ≡ true) ↔ (s ≡ t)
unfolding str_eq
str_eq_iff (x ∷ s) (y ∷ t) = ground (arith, str_eq_iff s t)
str_eq_iff _ _ = ground arith

-- `s >= t`; the order of UTF-8 bytes is the order of scalar values.
unfoldable pub str_ge : Str → Str → Bool
str_ge s [] = true
str_ge [] (y ∷ ys) = false
str_ge (x ∷ xs) (y ∷ ys) = ltb y x || (x == y && str_ge xs ys)

unfoldable pub strip_prefix : Str → Str → Option Str
strip_prefix [] s = some s
strip_prefix (p ∷ ps) [] = none
strip_prefix (p ∷ ps) (c ∷ s) = elim (p == c) [ true ↦ strip_prefix ps s | false ↦ none ]

unfoldable pub starts_with : Str → Str → Bool
unfolding strip_prefix
starts_with s p = elim (strip_prefix p s) [ none ↦ false | some _ ↦ true ]

-- `s.contains(p)`
unfoldable pub contains_str : Str → Str → Bool
unfolding starts_with
contains_str p [] = starts_with [] p
contains_str p (c ∷ s) = starts_with (c ∷ s) p || contains_str p s

unfoldable pub ends_with : ℕ → Str → Bool
ends_with sep [] = false
ends_with sep (c ∷ []) = c == sep
ends_with sep (c ∷ d ∷ s) = ends_with sep (d ∷ s)

unfoldable pub trim_end_matches : ℕ → Str → Str
trim_end_matches sep [] = []
trim_end_matches sep (c ∷ s) =
    let t = trim_end_matches sep s in if is_empty t && c == sep then [] else c ∷ t

-- The parts before and after the first separator, as `find` slices them.
unfoldable pub split_once : ℕ → Str → Option (Str × Str)
split_once sep [] = none
split_once sep (c ∷ s) =
    let later = split_once sep s in
    if c == sep then some ([], s) else elim later [ none ↦ none | some (a, b) ↦ some (c ∷ a, b) ]

-- The parts before and after the last separator, as `rfind` slices them.
unfoldable pub rsplit_once : ℕ → Str → Option (Str × Str)
rsplit_once sep [] = none
rsplit_once sep (c ∷ s) = elim (rsplit_once sep s) [
  | some (a, b) ↦ some (c ∷ a, b)
  | none ↦ if c == sep then some ([], s) else none
]

abbrev pub onto_first : ℕ → List Str → List Str
onto_first c [] = (c ∷ []) ∷ []
onto_first c (p ∷ ps) = (c ∷ p) ∷ ps

-- `s.split(sep)`: never empty
unfoldable pub split : ℕ → Str → List Str
split sep [] = [] ∷ []
split sep (c ∷ s) =
    let pieces = split sep s in if c == sep then [] ∷ pieces else onto_first c pieces

pub split-nonempty : (sep : ℕ) (s : Str) → (p : Str) × (ps : List Str) × (split sep s ≡ p ∷ ps)
unfolding split
split-nonempty sep [] = ([], [], refl)
split-nonempty sep (c ∷ s) =
    let (p, ps, e) = split-nonempty sep s in
    elim (Bool-cases (c == sep)) [
      | inl x ↦ rw (x, split) ([], split sep s, refl)
      | inr x ↦ rw (x, e, split) (c ∷ p, ps, refl)
    ]

-- `parts.join(sep)`
unfoldable pub join : ℕ → List Str → Str
join sep [] = []
join sep (p ∷ []) = p
join sep (p ∷ q ∷ ps) = p ++ (sep ∷ join sep (q ∷ ps))

abbrev pub ascii_lower : ℕ → ℕ
ascii_lower c = if in_range b'A' b'Z' c then c + 32 else c

-- `to_ascii_lowercase`
unfoldable pub to_ascii_lowercase : Str → Str
to_ascii_lowercase = map ascii_lower

-- `str::len`: the bytes of the UTF-8 encoding
abbrev pub len_utf8 : ℕ → ℕ
len_utf8 c = if ltb c 0x80 then 1 else if ltb c 0x800 then 2 else if ltb c 0x10000 then 3 else 4

unfoldable pub byte_len : Str → ℕ
byte_len [] = 0
byte_len (c ∷ s) = len_utf8 c + byte_len s

-- The UTF-8 bytes of one character, and `as_bytes`
unfoldable pub utf8_char : ℕ → Bytes
utf8_char c =
    if ltb c 0x80
    then c ∷ []
    else if ltb c 0x800
    then (0xC0 + c / 64) ∷ (0x80 + c % 64) ∷ []
    else if ltb c 0x10000
    then (0xE0 + c / 4096) ∷ (0x80 + c / 64 % 64) ∷ (0x80 + c % 64) ∷ []
    else (0xF0 + c / 262144) ∷ (0x80 + c / 4096 % 64) ∷ (0x80 + c / 64 % 64) ∷ (0x80 + c % 64) ∷ []

unfoldable pub as_bytes : Str → Bytes
as_bytes [] = []
as_bytes (c ∷ s) = utf8_char c ++ as_bytes s
