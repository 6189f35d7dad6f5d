-- ===== src/Classify/Names.antt =====
-- src/classify.rs: the names of zip members, and the elided text of a diagnostic.
pub mod Valid
use odf_crypto.Prelude.{
  ℕ, zero, suc, ◌+◌, ◌-◌, ◌/◌, ◌%◌, Bool, true, false, not, ◌&&◌, ◌||◌, Option, none, some, [], ◌∷◌,
  ◌++◌, Str, codes, str_eq, ltb, leb, ◌==◌, if◌then◌else◌, in_range, rsplit_once, byte_len,
  len_utf8,
}

-- The local `dots`: so many dots since the last slash, or -1 behind any other character.
pub data Dots : Type 0 where
  count : ℕ → Dots
  other : Dots

abbrev pub one_or_two : Dots → Bool
one_or_two (count n) = n == 1 || n == 2
one_or_two other = false

abbrev pub one_more : Dots → Dots
one_more (count n) = count (n + 1)
one_more other = other

-- `'\\' | '?' | '<' | '>' | '"' | '|' | ':'`
unfoldable pub is_forbidden : ℕ → Bool
is_forbidden c =
    c == b'\\' || c == b'?' || c == b'<' || c == b'>' || c == b'"' || c == b'|' || c == b':'

-- A control character or a surrogate.
abbrev pub is_unprintable : ℕ → Bool
is_unprintable c = ltb c 32 || in_range 0xD800 0xDFFF c

-- One character; `none` is `return false`. The flag is `i == 0`.
unfoldable pub name_char : Bool → Dots → ℕ → Option Dots
name_char is_first dots c =
    if c == b'.'
    then some (one_more dots)
    else if is_forbidden c
    then none
    else if c == b'/'
    then (if one_or_two dots || is_first then none else some (count 0))
    else if is_unprintable c
    then none
    else some other

unfoldable pub name_from : Bool → Dots → Str → Bool
name_from is_first dots [] = not (one_or_two dots)
name_from is_first dots (c ∷ s) = elim (name_char is_first dots c) [
  | none ↦ false
  | some dots' ↦ name_from false dots' s
]

unfoldable pub is_valid_zip_entry_file_name : Str → Bool
is_valid_zip_entry_file_name = name_from true (count 0)

-- The flag is `prev_slash`.
unfoldable pub collapse_from : Bool → Str → Str
collapse_from prev_slash [] = []
collapse_from prev_slash (c ∷ s) =
    let rest = collapse_from (c == b'/') s in if c == b'/' && prev_slash then rest else c ∷ rest

unfoldable pub collapse_slashes : Str → Str
collapse_slashes = collapse_from false

unfoldable pub member_matches_path : Str → Str → Bool
unfolding collapse_slashes
member_matches_path zip_name want =
    if str_eq zip_name want then true else str_eq (collapse_slashes zip_name) want

-- The part behind the last slash, unless that is empty.
abbrev pub last_part_or : Str → Option (Str × Str) → Str
last_part_or path none = path
last_part_or path (some (dir, [])) = path
last_part_or path (some (dir, c ∷ last)) = c ∷ last

unfoldable pub short_name : Str → Str
short_name path = last_part_or path (rsplit_once b'/' path)

abbrev pub diagnostic_elision : ℕ
diagnostic_elision = 96

-- The decimal digits of a `usize`, which has at most twenty.
unfoldable pub decimal : ℕ → ℕ → Str
decimal zero n = []
decimal (suc fuel) n =
    let more = decimal fuel (n / 10) in
    if ltb n 10 then (b'0' + n) ∷ [] else more ++ (b'0' + n % 10) ∷ []

-- `s[..cut]`, where `cut` is the last start of a character at or below the limit; the number is the
-- byte offset of the first character.
unfoldable pub cut_at : ℕ → Str → Str
cut_at offset [] = []
cut_at offset (c ∷ []) = []
cut_at offset (c ∷ d ∷ s) =
    let rest = cut_at (offset + len_utf8 c) (d ∷ s) in
    if leb (offset + len_utf8 c) diagnostic_elision then c ∷ rest else []

unfoldable pub elide : Str → Str
unfolding cut_at decimal
elide s =
    if leb (byte_len s) diagnostic_elision
    then s
    else cut_at 0 s
      ++ (codes "… [+"
          ++ (decimal 20 (byte_len s - byte_len (cut_at 0 s)) ++ codes " bytes elided]"))
