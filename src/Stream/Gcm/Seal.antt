-- ===== src/Stream/Gcm/Seal.antt =====
-- src/stream.rs: what was sealed in some pieces is verified and opened in others.
pub mod Verify
use odf_crypto.Prelude.{
  ℕ, zero, suc, ◌+◌, ◌-◌, ◌≤◌, ◌<◌, Bool, true, false, not, Option, none, some, List, [], ◌∷◌, ◌++◌,
  ◌≡◌, refl, sym, ap, ◌∙◌, subst, arith, Bytes, leb, ltb, ◌==◌, length, length-append, take, drop,
  zeros, Result, ok, err,
}
use odf_crypto.Stream.Source.{Source, IoError, read_full}
use odf_crypto.Stream.Bits.{ct_eq}
use odf_crypto.Stream.Ghash.{GhashStream, new_ghash, update, finalize}
use odf_crypto.Stream.Ghash.Absorbed.{BlockByBlock}
use odf_crypto.Stream.Ghash.Whole.{joined, updates, ghash_of}
use odf_crypto.Stream.Ghash.Pieces.{updates-ghash}
use odf_crypto.Stream.Gcm.{
  AesCrates, GcmStream, start_gcm, new_gcm, encrypt, decrypt, tag, xor_with, gcm_verify,
}
use odf_crypto.Stream.Gcm.Seal.Verify.{tag_of, gcm_verify-tag, ct_eq-same}

-- What the ctr crate documents: the key stream runs on from one call to the next, and applying it
-- again from the same state restores the bytes.
pub record RunsOn (crates : AesCrates) : Type 0 where
  pub empty : (c : crates.Ctr) → crates.apply_keystream c [] ≡ (c, [])
  pub append :
      (c : crates.Ctr) (xs ys : Bytes)
      → (crates.apply_keystream c (xs ++ ys)).1
        ≡ (crates.apply_keystream c xs).1
          ++ (crates.apply_keystream (crates.apply_keystream c xs).0 ys).1
  pub restores :
      (c : crates.Ctr) (xs : Bytes)
      → (crates.apply_keystream c (crates.apply_keystream c xs).1).1 ≡ xs

module _ (crates : AesCrates) where
  -- One piece after the other: the stream, and all that came out.
  abbrev pub encrypts : GcmStream crates → List Bytes → GcmStream crates × Bytes
  encrypts s [] = (s, [])
  encrypts s (piece ∷ pieces) =
      let first = encrypt crates s piece in
      let rest = encrypts first.0 pieces in (rest.0, first.1 ++ rest.1)

  abbrev pub decrypts : GcmStream crates → List Bytes → GcmStream crates × Bytes
  decrypts s [] = (s, [])
  decrypts s (piece ∷ pieces) =
      let first = decrypt crates s piece in
      let rest = decrypts first.0 pieces in (rest.0, first.1 ++ rest.1)

  -- The encryption absorbs what comes out, in some pieces, and keeps its mask.
  encrypts-absorbs :
      (s : GcmStream crates) (pieces : List Bytes)
      → (out : List Bytes) × (joined out ≡ (encrypts s pieces).1)
        × ((encrypts s pieces).0.ghash ≡ updates crates.ghash s.ghash out)
        × ((encrypts s pieces).0.tag_mask ≡ s.tag_mask)
  unfolding encrypt
  encrypts-absorbs s [] = ([], refl, refl, refl)
  encrypts-absorbs s (piece ∷ pieces) =
      let (out, j, absorbed, mask) = encrypts-absorbs (encrypt crates s piece).0 pieces in
      (
        (encrypt crates s piece).1 ∷ out,
        ap (λ (r : Bytes). (encrypt crates s piece).1 ++ r) j,
        absorbed,
        mask,
      )

  module _ (laws : RunsOn crates) where
    decrypts-bytes :
        (s : GcmStream crates) (pieces : List Bytes)
        → (decrypts s pieces).1 ≡ (crates.apply_keystream s.ctr (joined pieces)).1
    unfolding decrypt
    decrypts-bytes s [] = ap (λ (r : crates.Ctr × Bytes). r.1) (sym (laws.empty s.ctr))
    decrypts-bytes s (piece ∷ pieces) =
        ap (λ (r : Bytes). (decrypt crates s piece).1 ++ r)
          (decrypts-bytes (decrypt crates s piece).0 pieces)
        ∙ sym (laws.append s.ctr piece (joined pieces))

    encrypts-bytes :
        (s : GcmStream crates) (pieces : List Bytes)
        → (encrypts s pieces).1 ≡ (crates.apply_keystream s.ctr (joined pieces)).1
    unfolding encrypt
    encrypts-bytes s [] = ap (λ (r : crates.Ctr × Bytes). r.1) (sym (laws.empty s.ctr))
    encrypts-bytes s (piece ∷ pieces) =
        ap (λ (r : Bytes). (encrypt crates s piece).1 ++ r)
          (encrypts-bytes (encrypt crates s piece).0 pieces)
        ∙ sym (laws.append s.ctr piece (joined pieces))

length-xor_with : (t mask : Bytes) → length (xor_with t mask) ≡ length t
length-xor_with [] [] = refl
length-xor_with [] (m ∷ mask) = refl
length-xor_with (t ∷ ts) [] = refl
length-xor_with (t ∷ ts) (m ∷ mask) = ap suc (length-xor_with ts mask)

sealed-tag :
    (crates : AesCrates)
    → BlockByBlock crates.ghash
    → (key iv : Bytes) (pieces : List Bytes)
    → tag crates (encrypts crates (start_gcm crates key iv) pieces).0
      ≡ tag_of crates key iv (encrypts crates (start_gcm crates key iv) pieces).1
unfolding tag start_gcm
sealed-tag crates blocks key iv pieces =
    let s = start_gcm crates key iv in
    let (out, j, absorbed, mask) = encrypts-absorbs crates s pieces in
    ap
      (λ (g : GhashStream crates.ghash).
        xor_with (finalize crates.ghash g) (encrypts crates s pieces).0.tag_mask)
      absorbed
    ∙ ap (xor_with (finalize crates.ghash (updates crates.ghash s.ghash out))) mask
    ∙ ap (λ (g : Bytes). xor_with g s.tag_mask)
        (updates-ghash crates.ghash blocks (crates.ghash_new (crates.encrypt_block key (zeros 16)))
          out)
    ∙ ap (tag_of crates key iv) j

-- What was encrypted in some pieces verifies under its tag, whatever follows it and whatever the
-- size of the buffer, and decrypted in any other pieces it is what was encrypted; it is assumed that
-- the key and the vector have the right lengths, that GHASH takes bytes block by block and gives 16
-- bytes, and that the key stream runs on from call to call and restores what it was applied to.
pub sealed_opens :
    (crates : AesCrates)
    → RunsOn crates
    → BlockByBlock crates.ghash
    → ((h : crates.ghash.State) → length (crates.ghash.finalize h) ≡ 16)
    → (key iv rest : Bytes) (pieces others : List Bytes)
    → new_gcm crates key iv ≡ some (start_gcm crates key iv)
    → joined others ≡ (encrypts crates (start_gcm crates key iv) pieces).1
    → (gcm_verify crates key iv
          (record {
            bytes =
                (encrypts crates (start_gcm crates key iv) pieces).1
                ++ (tag crates (encrypts crates (start_gcm crates key iv) pieces).0 ++ rest);
            failure = none;
          })
          (length (encrypts crates (start_gcm crates key iv) pieces).1)
        ≡ ok true)
      × ((decrypts crates (start_gcm crates key iv) others).1 ≡ joined pieces)
unfolding tag finalize
sealed_opens crates stream blocks sixteen key iv rest pieces others good same =
    let s = start_gcm crates key iv in
    let sealed = encrypts crates s pieces in
    let (out, j, absorbed, mask) = encrypts-absorbs crates s pieces in
    let stored = tag crates sealed.0 in
    let long : length stored ≡ 16 =
      length-xor_with (finalize crates.ghash sealed.0.ghash) sealed.0.tag_mask ∙ sixteen _ in
    let is_tag : stored ≡ tag_of crates key iv sealed.1 = sealed-tag crates blocks key iv pieces in
    (
      gcm_verify-tag crates blocks key iv sealed.1 stored rest none good long
          ∙ ap (λ (t : Bytes). ok (ct_eq t stored)) (sym is_tag)
          ∙ ap ok (ct_eq-same stored),
      decrypts-bytes crates stream s others
          ∙ ap (λ (b : Bytes). (crates.apply_keystream s.ctr b).1)
              (same ∙ encrypts-bytes crates stream s pieces)
          ∙ stream.restores s.ctr (joined pieces),
    )
