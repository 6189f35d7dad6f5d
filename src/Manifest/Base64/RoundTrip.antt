-- ===== src/Manifest/Base64/RoundTrip.antt =====
-- src/manifest.rs: `decode_b64` reads back what `encode_b64` writes.
use odf_crypto.Prelude.{
  ℕ, ◌+◌, ◌*◌, ◌/◌, ◌%◌, ◌^◌, ◌<◌, Bool, true, not, ◌&&◌, none, some, [], ◌∷◌, ◌++◌, ◌≡◌, refl, sym,
  ◌∙◌, arith, Str, Bytes, ◌==◌, if◌then◌else◌, in_range, set, All, passes_under, passes_under_lem,
}
use mathlib.Core.List.{append_assoc, append-nil}
use odf_crypto.Manifest.Base64.{
  sextet, letter, Group, flush, put_sextet, decode_char, decode_from, decode_b64, encode_chunk,
  encode_b64,
}

abbrev reads_back : ℕ → Bool
unfolding letter sextet
reads_back x = in_range b'+' b'z' (letter x) && (not (letter x == b'=') && (sextet (letter x) == x))

letters_read_back : passes_under reads_back 64 ≡ true
unfolding passes_under reads_back letter sextet
letters_read_back = refl

-- A letter adds its sextet to the group.
abbrev add_sextet : Group → ℕ → Group
add_sextet g x =
    let g' = record g { acc = set g.acc g.n x; n = g.n + 1 } in
    if g.n + 1 == 4 then flush g' else g'

decode_char-letter : (g : Group) (x : ℕ) → x < 64 → decode_char g (letter x) ≡ add_sextet g x
unfolding decode_char put_sextet reads_back
decode_char-letter g x h = ground (arith, passes_under_lem reads_back 64 letters_read_back x h)

decode_char-pad : (g : Group) → decode_char g b'=' ≡ put_sextet g b'=' 0
unfolding decode_char sextet
decode_char-pad g = refl

abbrev at_group : Bytes → ℕ → ℕ → ℕ → ℕ → Group
at_group out a0 a1 a2 a3 = record { out = out; acc = a0 ∷ a1 ∷ a2 ∷ a3 ∷ []; n = 0; got = 3 }

decode_char-letter_mod :
    (g : Group) (m : ℕ) → decode_char g (letter (m % 64)) ≡ add_sextet g (m % 64)
decode_char-letter_mod g m = decode_char-letter g (m % 64) (omega arith)

-- The sextets of a word of three bytes add up to the word.
sextets_of_word :
    (n : ℕ)
    → n < 2 ^ 24
    → (n / 2 ^ 18 % 64) * 2 ^ 18 + (n / 2 ^ 12 % 64) * 2 ^ 12 + (n / 2 ^ 6 % 64) * 2 ^ 6 + n % 64
      ≡ n
sextets_of_word n h = omega arith

bytes_of_word :
    (b0 b1 b2 n : ℕ)
    → b0 < 256
    → b1 < 256
    → b2 < 256
    → n ≡ b0 * 2 ^ 16 + b1 * 2 ^ 8 + b2
    → (n / 2 ^ 16 % 256 ≡ b0) × (n / 2 ^ 8 % 256 ≡ b1) × (n % 256 ≡ b2)
bytes_of_word b0 b1 b2 n h0 h1 h2 e = omega arith

module _ (out : Bytes) (a0 a1 a2 a3 b0 b1 b2 n : ℕ) where
  decode-chunk_3 :
      (rest : Str)
      → b0 < 256
      → b1 < 256
      → b2 < 256
      → n ≡ b0 * 2 ^ 16 + b1 * 2 ^ 8 + b2
      → decode_from (at_group out a0 a1 a2 a3) (encode_chunk b0 (some b1) (some b2) ++ rest)
        ≡ decode_from
            (at_group
              (out ++ b0 ∷ b1 ∷ b2 ∷ [])
              (n / 2 ^ 18 % 64)
              (n / 2 ^ 12 % 64)
              (n / 2 ^ 6 % 64)
              (n % 64))
            rest
  unfolding decode_from encode_chunk flush
  decode-chunk_3 rest h0 h1 h2 e =
      let w = bytes_of_word b0 b1 b2 n h0 h1 h2 e in
      rw (← e) (simp (decode_char-letter_mod, sextets_of_word n (omega arith), w.0, w.1, w.2))

  decode-chunk_2 :
      (rest : Str)
      → b0 < 256
      → b1 < 256
      → n ≡ b0 * 2 ^ 16 + b1 * 2 ^ 8 + 0
      → decode_from (at_group out a0 a1 a2 a3) (encode_chunk b0 (some b1) none ++ rest)
        ≡ decode_from
            (at_group (out ++ b0 ∷ b1 ∷ []) (n / 2 ^ 18 % 64) (n / 2 ^ 12 % 64) (n / 2 ^ 6 % 64) 0)
            rest
  unfolding decode_from encode_chunk flush put_sextet
  decode-chunk_2 rest h0 h1 e =
      let w = bytes_of_word b0 b1 0 n h0 h1 (omega arith) e in
      let s : (n / 2 ^ 18 % 64) * 2 ^ 18 + (n / 2 ^ 12 % 64) * 2 ^ 12 + (n / 2 ^ 6 % 64) * 2 ^ 6 + 0
          ≡ n =
        omega arith in
      rw (← e) (simp (decode_char-letter_mod, decode_char-pad, s, w.0, w.1))

  decode-chunk_1 :
      (rest : Str)
      → b0 < 256
      → n ≡ b0 * 2 ^ 16 + 0 + 0
      → decode_from (at_group out a0 a1 a2 a3) (encode_chunk b0 none none ++ rest)
        ≡ decode_from (at_group (out ++ b0 ∷ []) (n / 2 ^ 18 % 64) (n / 2 ^ 12 % 64) 0 0) rest
  unfolding decode_from encode_chunk flush put_sextet
  decode-chunk_1 rest h0 e =
      let w = bytes_of_word b0 0 0 n h0 (omega arith) (omega arith) (omega arith) in
      let s : (n / 2 ^ 18 % 64) * 2 ^ 18 + (n / 2 ^ 12 % 64) * 2 ^ 12 + 0 + 0 ≡ n = omega arith in
      rw (← e) (simp (decode_char-letter_mod, decode_char-pad, s, w.0))

abbrev pub IsByte : ℕ → Type 0
IsByte b = b < 256

-- From any group boundary, decoding what was encoded adds the bytes.
decode_from-encode :
    (bs out : Bytes) (a0 a1 a2 a3 : ℕ)
    → All IsByte bs
    → decode_from (at_group out a0 a1 a2 a3) (encode_b64 bs) ≡ out ++ bs
unfolding encode_b64
decode_from-encode [] out a0 a1 a2 a3 h = unfold decode_from in sym (append-nil out)
decode_from-encode (b0 ∷ []) out a0 a1 a2 a3 h =
    rw (← append-nil (encode_chunk b0 none none))
      (unfold decode_from in decode-chunk_1 out a0 a1 a2 a3 b0 0 0 _ [] h.0 refl)
decode_from-encode (b0 ∷ b1 ∷ []) out a0 a1 a2 a3 h =
    rw (← append-nil (encode_chunk b0 (some b1) none))
      (unfold decode_from in decode-chunk_2 out a0 a1 a2 a3 b0 b1 0 _ [] h.0 h.1.0 refl)
decode_from-encode (b0 ∷ b1 ∷ b2 ∷ bs) out a0 a1 a2 a3 h =
    decode-chunk_3 out a0 a1 a2 a3 b0 b1 b2 _ (encode_b64 bs) h.0 h.1.0 h.1.1.0 refl
    ∙ decode_from-encode bs (out ++ b0 ∷ b1 ∷ b2 ∷ []) _ _ _ _ h.1.1.1
    ∙ append_assoc out (b0 ∷ b1 ∷ b2 ∷ []) bs

-- `decode_b64` gives back the bytes that `encode_b64` was given, whatever they are, padding
-- included.
pub decode-encode : (bs : Bytes) → All IsByte bs → decode_b64 (encode_b64 bs) ≡ bs
unfolding decode_b64
decode-encode bs h = decode_from-encode bs [] 0 0 0 0 h
