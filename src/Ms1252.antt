-- ===== src/Ms1252.antt =====
-- src/ms1252.rs: a password as the bytes of LibreOffice's MS-1252 encoder.
pub mod Table
pub mod Encode
use odf_crypto.Ms1252.Table.{to_char_ex, replace, binary_search}
use odf_crypto.Prelude.{
  ℕ, ◌-◌, ◌^◌, Bool, true, ◌||◌, Option, none, some, map, Str, Bytes, ltb, leb, if◌then◌else◌,
  in_range,
}

-- `0..=0x7F | 0xA0..=0xFF`, else the extension table
unfoldable pub direct : ℕ → Option ℕ
direct c = if leb c 0x7F || in_range 0xA0 0xFF c then some c else binary_search to_char_ex c

abbrev pub private_byte : ℕ → ℕ
private_byte c = if in_range 0xF100 0xF1FF c then c - 0xF100 else b'?'

abbrev or_replace : ℕ → Option ℕ → ℕ
or_replace c (some b) = b
or_replace c none = private_byte c

abbrev or_similar : ℕ → Option ℕ → ℕ
or_similar c (some b) = b
or_similar c none = or_replace c (binary_search replace c)

-- A character outside the first plane is no `u16`.
unfoldable pub byte_for : ℕ → ℕ
byte_for c = if ltb c (2 ^ 16) then or_similar c (direct c) else b'?'

unfoldable pub encode : Str → Bytes
encode = map byte_for
