-- ===== src/Ms1252/Encode.antt =====
-- src/ms1252.rs: the bytes of an encoded password, against the tables read row by row.
use odf_crypto.Prelude.{
  ℕ, ◌≤◌, ◌<◌, Bool, true, ◌||◌, ◌&&◌, none, some, [], ◌∷◌, ◌≡◌, refl, arith, ltb, leb,
  if◌then◌else◌, in_range, length, map, All, Str, Option-cases, inl, inr,
}
use odf_crypto.Ms1252.{direct, private_byte, byte_for, encode}
use odf_crypto.Ms1252.Table.{Rows, to_char_ex, replace}
use odf_crypto.Ms1252.Table.Search.{lookup, binary_search-lookup, to_char_ex_sorted, replace_sorted}

-- The four steps of the conversion, in their order.
abbrev pub byte_by_steps : ℕ → ℕ
byte_by_steps c =
    if ltb 0xFFFF c
    then b'?'
    else if leb c 0x7F || in_range 0xA0 0xFF c
    then c
    else elim (lookup to_char_ex c) [
      | some b ↦ b
      | none ↦ elim (lookup replace c) [ some b ↦ b | none ↦ private_byte c ]
    ]

byte_for-steps : (c : ℕ) → byte_for c ≡ byte_by_steps c
unfolding byte_for direct
byte_for-steps c = ground (
  arith,
  binary_search-lookup to_char_ex c to_char_ex_sorted,
  binary_search-lookup replace c replace_sorted,
)

-- Every row of the table holds a byte.
abbrev holds_bytes : Rows → Bool
holds_bytes [] = true
holds_bytes ((k, b) ∷ rows) = ltb b 256 && holds_bytes rows

lookup-byte : (rows : Rows) (c b : ℕ) → holds_bytes rows ≡ true → lookup rows c ≡ some b → b < 256
unfolding lookup
lookup-byte [] c b h e = cc
lookup-byte ((k, v) ∷ rows) c b h e = ground (arith, lookup-byte rows c b)

byte_by_steps-byte : (c : ℕ) → byte_by_steps c < 256
byte_by_steps-byte c =
    let ex = λ (b : ℕ). lookup-byte to_char_ex c b refl in
    let similar = λ (b : ℕ). lookup-byte replace c b refl in
    elim (Option-cases (lookup to_char_ex c)) [
      | inr (b, e) ↦ let small = ex b e in ground (arith, e, small)
      | inl e ↦ elim (Option-cases (lookup replace c)) [
        | inr (b, e') ↦ let small = similar b e' in ground (arith, e, e', small)
        | inl e' ↦ ground (arith, e, e')
      ]
    ]

ascii_step : (c : ℕ) → c ≤ 0x7F → byte_by_steps c ≡ c
ascii_step c h = ground arith

-- Each character becomes one byte, by the four steps of the conversion; an ASCII character is kept.
pub encode-steps :
    (password : Str)
    → (encode password ≡ map byte_by_steps password)
      × All (λ b. b < 256) (encode password)
      × (length (encode password) ≡ length password)
      × (All (λ c. c ≤ 0x7F) password → encode password ≡ password)
unfolding encode
encode-steps [] = (refl, tt, refl, λ h. refl)
encode-steps (c ∷ password) =
    let (same, bytes, long, ascii) = encode-steps password in
    let here = byte_for-steps c in
    (
      cc (here, same),
      (rw here (byte_by_steps-byte c), bytes),
      omega (arith, long),
      λ h. cc (here, (let small : c ≤ 0x7F = h.0 in ascii_step c small), ascii h.1),
    )
