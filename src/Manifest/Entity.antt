-- ===== src/Manifest/Entity.antt =====
-- src/manifest.rs: `expand_ref` and `normalize_attr_value`, with the library functions
-- `u32::from_str_radix` and `char::from_u32` that they call.
use odf_crypto.Prelude.{
  ℕ, ◌+◌, ◌-◌, ◌*◌, ◌^◌, true, false, ◌||◌, Option, none, some, [], ◌∷◌, ◌++◌, Str, codes, str_eq,
  ltb, ◌==◌, if◌then◌else◌, in_range,
}

-- `char::to_digit(radix)`
unfoldable pub to_digit : ℕ → ℕ → Option ℕ
to_digit radix c =
    let value =
      if in_range b'0' b'9' c
      then c - b'0'
      else if in_range b'a' b'z' c
      then c - b'a' + 10
      else if in_range b'A' b'Z' c
      then c - b'A' + 10
      else radix in
    if ltb value radix then some value else none

unfoldable pub radix_digits : ℕ → ℕ → Str → Option ℕ
unfolding to_digit
radix_digits radix n [] = some n
radix_digits radix n (c ∷ s) = elim (to_digit radix c) [
  | none ↦ none
  | some d ↦ elim (ltb (n * radix + d) (2 ^ 32)) [
    | true ↦ radix_digits radix (n * radix + d) s
    | false ↦ none
  ]
]

-- `u32::from_str_radix(s, radix).ok()`; `s.parse::<u32>()` is that at radix 10
unfoldable pub u32_from_str_radix : ℕ → Str → Option ℕ
unfolding radix_digits
u32_from_str_radix radix [] = none
u32_from_str_radix radix (c ∷ []) = if c == b'+' then none else radix_digits radix 0 (c ∷ [])
u32_from_str_radix radix (c ∷ d ∷ s) =
    if c == b'+' then radix_digits radix 0 (d ∷ s) else radix_digits radix 0 (c ∷ d ∷ s)

unfoldable pub char_from_u32 : ℕ → Option ℕ
char_from_u32 n = if ltb n 0xD800 || in_range 0xE000 0x10FFFF n then some n else none

abbrev pub char_of_code : Option ℕ → Str
unfolding char_from_u32
char_of_code none = []
char_of_code (some n) = elim (char_from_u32 n) [ none ↦ [] | some c ↦ c ∷ [] ]

-- `rest` behind the `#`
unfoldable pub expand_number : Str → Str
unfolding u32_from_str_radix char_of_code char_from_u32
expand_number [] = char_of_code (u32_from_str_radix 10 [])
expand_number (c ∷ s) =
    if c == b'x' || c == b'X'
    then char_of_code (u32_from_str_radix 16 s)
    else char_of_code (u32_from_str_radix 10 (c ∷ s))

unfoldable pub expand_named : Str → Str
expand_named name =
    if str_eq name (codes "amp")
    then b'&' ∷ []
    else if str_eq name (codes "lt")
    then b'<' ∷ []
    else if str_eq name (codes "gt")
    then b'>' ∷ []
    else if str_eq name (codes "apos")
    then b'\'' ∷ []
    else if str_eq name (codes "quot")
    then b'"' ∷ []
    else []

unfoldable pub expand_ref : Str → Str
unfolding expand_number expand_named
expand_ref [] = expand_named []
expand_ref (c ∷ s) = if c == b'#' then expand_number s else expand_named (c ∷ s)

-- Where `normalize_attr_value` stands in its loop: between characters, behind a `\r` whose `\n` it
-- may still skip, or inside a reference.
pub data Place : Type 0 where
  in_text after_cr : Place
  in_ref : Str → Place

unfoldable pub normalize_text : ℕ → Place × Str
normalize_text c =
    if c == b'&'
    then (in_ref [], [])
    else if c == b'\r'
    then (after_cr, b' ' ∷ [])
    else if c == b'\n' || c == b'\t'
    then (in_text, b' ' ∷ [])
    else (in_text, c ∷ [])

unfoldable pub normalize_char : Place → ℕ → Place × Str
unfolding normalize_text expand_ref
normalize_char in_text c = normalize_text c
normalize_char after_cr c = if c == b'\n' then (in_text, []) else normalize_text c
normalize_char (in_ref ent) c =
    if c == b';' then (in_text, expand_ref ent) else (in_ref (ent ++ c ∷ []), [])

unfoldable pub normalize_end : Place → Str
unfolding expand_ref
normalize_end in_text = []
normalize_end after_cr = []
normalize_end (in_ref ent) = expand_ref ent

unfoldable pub normalize_from : Place → Str → Str
unfolding normalize_char normalize_end
normalize_from p [] = normalize_end p
normalize_from p (c ∷ s) = (normalize_char p c).1 ++ normalize_from (normalize_char p c).0 s

unfoldable pub normalize_attr_value : Str → Str
unfolding normalize_from
normalize_attr_value = normalize_from in_text
