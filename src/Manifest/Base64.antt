-- ===== src/Manifest/Base64.antt =====
-- src/manifest.rs: `decode_b64`, which skips what is not base64, and `encode_b64`.
pub mod RoundTrip
use odf_crypto.Prelude.{
  ℕ, zero, suc, ◌+◌, ◌-◌, ◌*◌, ◌/◌, ◌%◌, ◌^◌, Bool, true, false, not, ◌&&◌, ◌||◌, Option, none,
  some, List, [], ◌∷◌, ◌++◌, Str, Bytes, codes, ltb, leb, ◌==◌, if◌then◌else◌, in_range, get_or,
  set, unwrap_or,
}

abbrev pub decode_table : List ℕ
decode_table =
    62 ∷ 255 ∷ 255 ∷ 255 ∷ 63 ∷ 52 ∷ 53 ∷ 54 ∷ 55 ∷ 56 ∷ 57 ∷ 58 ∷ 59 ∷ 60 ∷ 61 ∷ 255 ∷ 255 ∷ 255
    ∷ 0 ∷ 255 ∷ 255 ∷ 255 ∷ 0 ∷ 1 ∷ 2 ∷ 3 ∷ 4 ∷ 5 ∷ 6 ∷ 7 ∷ 8 ∷ 9 ∷ 10 ∷ 11 ∷ 12 ∷ 13 ∷ 14 ∷ 15 ∷ 16
    ∷ 17 ∷ 18 ∷ 19 ∷ 20 ∷ 21 ∷ 22 ∷ 23 ∷ 24 ∷ 25 ∷ 255 ∷ 255 ∷ 255 ∷ 255 ∷ 255 ∷ 0 ∷ 26 ∷ 27 ∷ 28
    ∷ 29 ∷ 30 ∷ 31 ∷ 32 ∷ 33 ∷ 34 ∷ 35 ∷ 36 ∷ 37 ∷ 38 ∷ 39 ∷ 40 ∷ 41 ∷ 42 ∷ 43 ∷ 44 ∷ 45 ∷ 46 ∷ 47
    ∷ 48 ∷ 49 ∷ 50 ∷ 51 ∷ []

abbrev pub alphabet : Str
alphabet = codes "ABCDEFGHIJKLMNOPQRSTUVWXYZabcdefghijklmnopqrstuvwxyz0123456789+/"

-- `TABLE[(c as u8 - b'+') as usize]`; 255 marks a character that is skipped
unfoldable pub sextet : ℕ → ℕ
sextet c = get_or decode_table (c - b'+') 255

unfoldable pub letter : ℕ → ℕ
letter x = get_or alphabet x 0

-- The locals of `decode_b64`: the sextets of the current group, how many there are, and how many
-- bytes the group will give.
pub record Group : Type 0 where
  pub out : Bytes
  pub acc : List ℕ
  pub n : ℕ
  pub got : ℕ

-- `n == 4`: the bytes of a full group
unfoldable pub flush : Group → Group
flush g =
    let v =
      get_or g.acc 0 0 * 2 ^ 18
      + get_or g.acc 1 0 * 2 ^ 12
      + get_or g.acc 2 0 * 2 ^ 6
      + get_or g.acc 3 0 in
    let bytes =
      (v / 2 ^ 16 % 256)
      ∷ ((if ltb 1 g.got then (v / 2 ^ 8 % 256) ∷ [] else [])
          ++ (if ltb 2 g.got then (v % 256) ∷ [] else [])) in
    record g { out = g.out ++ bytes; n = 0; got = 3 }

-- A character with a sextet.
unfoldable pub put_sextet : Group → ℕ → ℕ → Group
unfolding flush
put_sextet g c byte =
    let n = g.n + 1 in
    let g' = record g {
      acc = set g.acc g.n byte;
      n = n;
      got = if c == b'=' && ltb 2 n then g.got - 1 else g.got;
    } in
    if n == 4 then flush g' else g'

-- One round of the loop over the characters.
unfoldable pub decode_char : Group → ℕ → Group
unfolding put_sextet sextet
decode_char g c =
    if not (in_range b'+' b'z' c)
    then g
    else if sextet c == 255
    then g
    else put_sextet g c (sextet c)

unfoldable pub decode_from : Group → Str → Bytes
decode_from g [] = g.out
decode_from g (c ∷ s) = decode_from (decode_char g c) s

unfoldable pub decode_b64 : Str → Bytes
decode_b64 = decode_from (record { out = []; acc = 0 ∷ 0 ∷ 0 ∷ 0 ∷ []; n = 0; got = 3 })

-- A chunk of one to three bytes. The `|` of the source joins bytes in disjoint bit ranges, which
-- is their sum.
unfoldable pub encode_chunk : ℕ → Option ℕ → Option ℕ → Str
encode_chunk b0 b1 b2 =
    let n = b0 * 2 ^ 16 + unwrap_or b1 0 * 2 ^ 8 + unwrap_or b2 0 in
    letter (n / 2 ^ 18 % 64)
    ∷ letter (n / 2 ^ 12 % 64)
    ∷ elim b1 [ some _ ↦ letter (n / 2 ^ 6 % 64) | none ↦ b'=' ]
    ∷ elim b2 [ some _ ↦ letter (n % 64) | none ↦ b'=' ]
    ∷ []

unfoldable pub encode_b64 : Bytes → Str
encode_b64 [] = []
encode_b64 (b0 ∷ []) = encode_chunk b0 none none
encode_b64 (b0 ∷ b1 ∷ []) = encode_chunk b0 (some b1) none
encode_b64 (b0 ∷ b1 ∷ b2 ∷ bytes) = encode_chunk b0 (some b1) (some b2) ++ encode_b64 bytes
