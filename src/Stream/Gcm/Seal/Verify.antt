-- ===== src/Stream/Gcm/Seal/Verify.antt =====
-- src/stream.rs: what `gcm_verify` compares, whatever the size of its buffer.
use odf_crypto.Prelude.{
  ℕ, zero, suc, ◌-◌, ◌/◌, ◌≤◌, ◌<◌, true, Option, some, List, [], ◌∷◌, ◌++◌, ◌≡◌, refl, sym, ap,
  ◌∙◌, arith, Str, Bytes, leb, ltb, ◌==◌, length, length-append, length-take, length-drop, take,
  drop, take-drop, zeros, ok,
}
use odf_crypto.Stream.Source.{read_full}
use odf_crypto.Stream.Bits.{xor_bits, difference, ct_eq}
use odf_crypto.Stream.Ghash.Absorbed.{BlockByBlock}
use odf_crypto.Stream.Ghash.Whole.{joined, updates, ghash_of}
use odf_crypto.Stream.Ghash.Pieces.{updates-ghash}
use odf_crypto.Stream.Gcm.{
  AesCrates, GcmStream, start_gcm, new_gcm, absorb, tag, xor_with, turn, verify_loop, buffer_len,
  gcm_verify,
}

xor_bits-same : (k a : ℕ) → xor_bits k a a ≡ 0
xor_bits-same zero a = refl
xor_bits-same (suc k) a = let rest = xor_bits-same k (a / 2) in ground arith

difference-same : (bytes : Bytes) → difference 0 bytes bytes ≡ 0
unfolding difference
difference-same [] = refl
difference-same (b ∷ bytes) = rw (xor_bits-same 8 b) (difference-same bytes)

pub ct_eq-same : (bytes : Bytes) → ct_eq bytes bytes ≡ true
unfolding ct_eq
ct_eq-same bytes = let same = difference-same bytes in ground arith

take-whole : (n : ℕ) (xs : Bytes) → length xs ≡ n → take n xs ≡ xs
take-whole zero [] h = refl
take-whole zero (x ∷ xs) h = absurd (omega (arith, h))
take-whole (suc n) [] h = absurd (omega (arith, h))
take-whole (suc n) (x ∷ xs) h = ap (λ (r : Bytes). x ∷ r) (take-whole n xs (omega (arith, h)))

take-front : (n : ℕ) (xs ys : Bytes) → n ≤ length xs → take n (xs ++ ys) ≡ take n xs
take-front zero xs ys h = refl
take-front (suc n) [] ys h = absurd (omega (arith, h))
take-front (suc n) (x ∷ xs) ys h = ap (λ (r : Bytes). x ∷ r) (take-front n xs ys (omega (arith, h)))

drop-front : (n : ℕ) (xs ys : Bytes) → n ≤ length xs → drop n (xs ++ ys) ≡ drop n xs ++ ys
drop-front zero xs ys h = refl
drop-front (suc n) [] ys h = absurd (omega (arith, h))
drop-front (suc n) (x ∷ xs) ys h = drop-front n xs ys (omega (arith, h))

read_full-front :
    (n : ℕ) (xs ys : Bytes) (failure : Option Str)
    → n ≤ length xs
    → read_full n (record { bytes = xs ++ ys; failure = failure })
      ≡ ok (take n xs, record { bytes = drop n xs ++ ys; failure = failure })
unfolding read_full
read_full-front n xs ys failure h =
    let fits : leb n (length (xs ++ ys)) ≡ true = let l = length-append xs ys in ground arith in
    rw (fits, take-front n xs ys h, drop-front n xs ys h) refl

module _ (crates : AesCrates) where
  absorbs : GcmStream crates → List Bytes → GcmStream crates
  absorbs s pieces = record s { ghash = updates crates.ghash s.ghash pieces }

  -- The tag of a ciphertext: the GHASH of it all, under the mask.
  abbrev pub tag_of : Bytes → Bytes → Bytes → Bytes
  tag_of key iv ciphertext =
      xor_with
        (ghash_of crates.ghash (crates.ghash_new (crates.encrypt_block key (zeros 16))) ciphertext)
        (start_gcm crates key iv).tag_mask

  verify_loop-turn :
      (fuel size left : ℕ) (s : GcmStream crates) (ct more : Bytes) (failure : Option Str)
      → 0 < left
      → turn left size ≤ length ct
      → verify_loop crates (suc fuel) size s left (record { bytes = ct ++ more; failure = failure })
        ≡ verify_loop crates fuel size
            (absorb crates s (take (turn left size) ct))
            (left - turn left size)
            (record { bytes = drop (turn left size) ct ++ more; failure = failure })
  unfolding verify_loop
  verify_loop-turn fuel size left s ct more failure busy fits =
      let starts : ltb 0 left ≡ true = ground arith in
      let long = length-take (turn left size) ct fits in
      let whole : (length (take (turn left size) ct) == turn left size) ≡ true = ground arith in
      rw (starts, verify_loop, read_full-front (turn left size) ct more failure fits, whole) refl

  turn-bounds :
      (left size : ℕ) → 0 < size → 0 < left → (0 < turn left size) × (turn left size ≤ left)
  unfolding turn
  turn-bounds left size h l = (ground arith, ground arith)

  -- The loop ends with the ciphertext absorbed, in some pieces, and the bytes behind it.
  verify_loop-absorbs :
      (fuel size : ℕ) (s : GcmStream crates) (ct more : Bytes) (failure : Option Str)
      → 0 < size
      → length ct ≤ fuel
      → (pieces : List Bytes) × (joined pieces ≡ ct)
        × (verify_loop crates fuel size s
              (length ct)
              (record { bytes = ct ++ more; failure = failure })
            ≡ ok (absorbs s pieces, record { bytes = more; failure = failure }))
  unfolding verify_loop absorbs absorb
  verify_loop-absorbs zero size s [] more failure h enough = ([], refl, refl)
  verify_loop-absorbs zero size s (c ∷ ct) more failure h enough = absurd (omega (arith, enough))
  verify_loop-absorbs (suc fuel) size s [] more failure h enough = ([], refl, refl)
  verify_loop-absorbs (suc fuel) size s (c ∷ ct) more failure h enough =
      let want = turn (length (c ∷ ct)) size in
      let (busy, fits) = turn-bounds (length (c ∷ ct)) size h (omega arith) in
      let got = take want (c ∷ ct) in
      let left = length-drop want (c ∷ ct) in
      let (pieces, j, e) =
        verify_loop-absorbs fuel size (absorb crates s got) (drop want (c ∷ ct)) more failure h
          (omega (arith, left, enough, busy)) in
      (
        got ∷ pieces,
        ap (λ (r : Bytes). got ++ r) j ∙ take-drop want (c ∷ ct),
        verify_loop-turn fuel size (length (c ∷ ct)) s (c ∷ ct) more failure (omega arith) fits
            ∙ ap
                (λ (n : ℕ).
                  verify_loop crates fuel size (absorb crates s got) n
                    (record { bytes = drop want (c ∷ ct) ++ more; failure = failure }))
                (sym left)
            ∙ e,
      )

  module _ (laws : BlockByBlock crates.ghash) where
    start-tag :
        (key iv : Bytes) (pieces : List Bytes)
        → tag crates (absorbs (start_gcm crates key iv) pieces) ≡ tag_of key iv (joined pieces)
    unfolding tag absorbs start_gcm
    start-tag key iv pieces =
        ap (λ (g : Bytes). xor_with g (start_gcm crates key iv).tag_mask)
          (updates-ghash crates.ghash laws (crates.ghash_new (crates.encrypt_block key (zeros 16)))
            pieces)

    -- The tag that is verified is that of the whole ciphertext.
    pub gcm_verify-tag :
        (key iv ct stored rest : Bytes) (failure : Option Str)
        → new_gcm crates key iv ≡ some (start_gcm crates key iv)
        → length stored ≡ 16
        → gcm_verify crates key iv
            (record { bytes = ct ++ (stored ++ rest); failure = failure })
            (length ct)
          ≡ ok (ct_eq (tag_of key iv ct) stored)
    unfolding gcm_verify
    gcm_verify-tag key iv ct stored rest failure good long =
        let (pieces, j, e) =
          verify_loop-absorbs (length ct) (buffer_len crates (length ct)) (start_gcm crates key iv)
            ct (stored ++ rest) failure (ground arith) (omega arith) in
        let front = read_full-front 16 stored rest failure (omega (arith, long)) in
        let all : take 16 stored ≡ stored = take-whole 16 stored long in
        let is_long : (length stored == 16) ≡ true = ground arith in
        rw (good, e, front, all, is_long, start-tag key iv pieces, j) refl
