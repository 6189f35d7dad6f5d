-- ===== src/Encrypt/Manifest/Stable.antt =====
-- src/encrypt.rs: every attribute value that the manifest is written with is kept as it stands.
use odf_crypto.Prelude.{
  ℕ, ◌%◌, Bool, true, not, ◌&&◌, Option, none, some, [], ◌∷◌, ◌≡◌, refl, arith, Str, Bytes, codes,
  decimal_text, digits, All, All-append, passes_under, passes_under_lem, unwrap_or,
}
use odf_crypto.Uris.{
  manifest_ns_oasis, manifest_ns_loext, aesgcm256_url, sha256_url, argon2id_url_lo,
}
use odf_crypto.Manifest.LoInt.Value.{IsDigit}
use odf_crypto.Manifest.Base64.{letter, encode_chunk, encode_b64}
use odf_crypto.Encrypt.MediaType.{is_line_space}
use odf_crypto.Encrypt.Params.{wholesome}
use odf_crypto.Encrypt.Manifest.{manifest_events}
use odf_crypto.Encrypt.Manifest.Escape.{IsStable, digits-digits}
use odf_crypto.Encrypt.Manifest.Written.{IsWritable}

-- The test of a literal.
abbrev pub are_stable : Str → Bool
are_stable [] = true
are_stable (c ∷ s) = not (is_line_space c) && are_stable s

pub of_are_stable : (s : Str) → are_stable s ≡ true → All IsStable s
of_are_stable [] h = tt
of_are_stable (c ∷ s) h = (ground arith, of_are_stable s (ground arith))

abbrev is_stable_letter : ℕ → Bool
is_stable_letter x = not (is_line_space (letter x))

letters_stable : passes_under is_stable_letter 64 ≡ true
unfolding passes_under letter is_line_space
letters_stable = refl

letter-IsStable : (x : ℕ) → IsStable (letter (x % 64))
letter-IsStable x =
    let h = passes_under_lem is_stable_letter 64 letters_stable (x % 64) (omega arith) in
    ground (arith, h)

pad-IsStable : IsStable b'='
unfolding is_line_space
pad-IsStable = refl

encode_chunk-IsStable : (b0 : ℕ) (b1 b2 : Option ℕ) → All IsStable (encode_chunk b0 b1 b2)
unfolding encode_chunk
encode_chunk-IsStable b0 none none =
    (letter-IsStable _, (letter-IsStable _, (pad-IsStable, (pad-IsStable, tt))))
encode_chunk-IsStable b0 (some b1) none =
    (letter-IsStable _, (letter-IsStable _, (letter-IsStable _, (pad-IsStable, tt))))
encode_chunk-IsStable b0 none (some b2) =
    (letter-IsStable _, (letter-IsStable _, (pad-IsStable, (letter-IsStable _, tt))))
encode_chunk-IsStable b0 (some b1) (some b2) =
    (letter-IsStable _, (letter-IsStable _, (letter-IsStable _, (letter-IsStable _, tt))))

pub encode_b64-IsStable : (bytes : Bytes) → All IsStable (encode_b64 bytes)
unfolding encode_b64
encode_b64-IsStable [] = tt
encode_b64-IsStable (b0 ∷ []) = encode_chunk-IsStable b0 none none
encode_b64-IsStable (b0 ∷ b1 ∷ []) = encode_chunk-IsStable b0 (some b1) none
encode_b64-IsStable (b0 ∷ b1 ∷ b2 ∷ bytes) =
    All-append IsStable (encode_chunk b0 (some b1) (some b2)) (encode_b64 bytes)
      (encode_chunk-IsStable b0 (some b1) (some b2)) (encode_b64-IsStable bytes)

digits-IsStable : (s : Str) → All IsDigit s → All IsStable s
unfolding is_line_space
digits-IsStable [] h = tt
digits-IsStable (c ∷ s) h = (ground arith, digits-IsStable s h.1)

pub decimal_text-IsStable : (n : ℕ) → All IsStable (decimal_text n)
unfolding decimal_text
decimal_text-IsStable n = digits-IsStable (digits n 10 n) (digits-digits n n (omega arith))

pub manifest_events-IsWritable :
    (size iv salt t m p : Str) (media_type : Option Str)
    → All IsStable size
    → All IsStable iv
    → All IsStable salt
    → All IsStable (unwrap_or media_type [])
    → All IsStable t
    → All IsStable m
    → All IsStable p
    → All IsWritable (manifest_events size iv salt media_type t m p)
unfolding manifest_events is_line_space manifest_ns_oasis manifest_ns_loext aesgcm256_url sha256_url
    argon2id_url_lo
manifest_events-IsWritable size iv salt t m p none hs hi hl hm ht hk hp = (
  tt,
  (
    (
      of_are_stable manifest_ns_oasis refl,
      (of_are_stable manifest_ns_loext refl, (of_are_stable wholesome.odf_version refl, tt)),
    ),
    (
      (of_are_stable (codes "encrypted-package") refl, (hs, tt)),
      (
        tt,
        (
          (of_are_stable aesgcm256_url refl, (hi, tt)),
          (
            (of_are_stable sha256_url refl, (decimal_text-IsStable 32, tt)),
            (
              (
                of_are_stable argon2id_url_lo refl,
                (ht, (hk, (hp, (hl, (decimal_text-IsStable 32, tt))))),
              ),
              (tt, (tt, (tt, tt))),
            ),
          ),
        ),
      ),
    ),
  ),
)
manifest_events-IsWritable size iv salt t m p (some media_type) hs hi hl hm ht hk hp = (
  tt,
  (
    (
      of_are_stable manifest_ns_oasis refl,
      (of_are_stable manifest_ns_loext refl, (of_are_stable wholesome.odf_version refl, tt)),
    ),
    (
      (of_are_stable (codes "encrypted-package") refl, (hs, (hm, tt))),
      (
        tt,
        (
          (of_are_stable aesgcm256_url refl, (hi, tt)),
          (
            (of_are_stable sha256_url refl, (decimal_text-IsStable 32, tt)),
            (
              (
                of_are_stable argon2id_url_lo refl,
                (ht, (hk, (hp, (hl, (decimal_text-IsStable 32, tt))))),
              ),
              (tt, (tt, (tt, tt))),
            ),
          ),
        ),
      ),
    ),
  ),
)
