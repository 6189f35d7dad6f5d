-- ===== src/Stream/Gcm.antt =====
-- src/stream.rs: AES-GCM over a stream. The aes, ctr and ghash crates are parameters: the
-- encryption of one block, the key stream that starts at a block, and GHASH under a key.
pub mod Seal
use odf_crypto.Prelude.{
  ℕ, zero, suc, ◌+◌, ◌-◌, ◌*◌, ◌==◌, Bool, true, false, not, ◌||◌, Option, none, some, List, [],
  ◌∷◌, ◌++◌, Str, Bytes, codes, leb, ltb, if◌then◌else◌, length, take, drop, zeros, Result, ok, err,
  ◌>>=◌, ◌>>◌, refuse_if,
}
use odf_crypto.Limits.{aes_gcm_iv_len, aes_gcm_tag_len}
use odf_crypto.Stream.Source.{IoError, internal, unexpected_eof, Source, read_full}
use odf_crypto.Stream.Bits.{xor, ct_eq}
use odf_crypto.Stream.Ghash.{GhashCrate, GhashStream, new_ghash, update, finalize}

abbrev pub chunk : ℕ
chunk = 64 * 1024

pub record AesCrates : Type 1 where
  pub ghash : GhashCrate
  pub Ctr : Type 0
  pub encrypt_block : Bytes → Bytes → Bytes
  pub inner_iv_init : Bytes → Bytes → Ctr
  pub apply_keystream : Ctr → Bytes → Ctr × Bytes
  pub ghash_new : Bytes → ghash.State

-- `iter_mut().zip(mask)`
abbrev pub xor_with : Bytes → Bytes → Bytes
xor_with (t ∷ tag) (m ∷ mask) = xor t m ∷ xor_with tag mask
xor_with tag _ = tag

-- `(left as usize).min(buf.len())`
unfoldable pub turn : ℕ → ℕ → ℕ
turn left size = if leb left size then left else size

module _ (crates : AesCrates) where
  pub record GcmStream : Type 0 where
    pub ctr : crates.Ctr
    pub ghash : GhashStream crates.ghash
    pub tag_mask : Bytes

  -- The stream of a key and a vector whose lengths are right.
  unfoldable pub start_gcm : Bytes → Bytes → GcmStream
  start_gcm key iv =
      let masked =
        crates.apply_keystream (crates.inner_iv_init key (iv ++ (0 ∷ 0 ∷ 0 ∷ 1 ∷ []))) (zeros 16) in
      record {
        ctr = masked.0;
        ghash = new_ghash crates.ghash (crates.ghash_new (crates.encrypt_block key (zeros 16)));
        tag_mask = masked.1;
      }

  -- `GcmStream::new`
  unfoldable pub new_gcm : Bytes → Bytes → Option GcmStream
  new_gcm key iv =
      if not (length iv == aes_gcm_iv_len)
      then none
      else if length key == 16 || length key == 24 || length key == 32
      then some (start_gcm key iv)
      else none

  unfoldable pub absorb : GcmStream → Bytes → GcmStream
  absorb s ciphertext = record s { ghash = update crates.ghash s.ghash ciphertext }

  -- The stream behind the buffer, and the buffer.
  unfoldable pub decrypt : GcmStream → Bytes → GcmStream × Bytes
  decrypt s buf =
      let applied = crates.apply_keystream s.ctr buf in
      (record s { ctr = applied.0; ghash = update crates.ghash s.ghash buf }, applied.1)

  unfoldable pub encrypt : GcmStream → Bytes → GcmStream × Bytes
  encrypt s buf =
      let applied = crates.apply_keystream s.ctr buf in
      (record s { ctr = applied.0; ghash = update crates.ghash s.ghash applied.1 }, applied.1)

  unfoldable pub tag : GcmStream → Bytes
  tag s = xor_with (finalize crates.ghash s.ghash) s.tag_mask

  -- The loop of `gcm_verify`, with a buffer of `size` bytes; the fuel bounds its turns.
  unfoldable pub verify_loop : ℕ → ℕ → GcmStream → ℕ → Source → Result IoError (GcmStream × Source)
  verify_loop zero size gcm left src = ok (gcm, src)
  verify_loop (suc fuel) size gcm left src =
      let want = turn left size in
      elim (ltb 0 left) [
        | false ↦ ok (gcm, src)
        | true ↦ do
          (got, rest) ← read_full want src
          refuse_if (not (length got == want)) unexpected_eof
          verify_loop fuel size (absorb gcm got) (left - want) rest
      ]

  abbrev pub opened : Option GcmStream → Result IoError GcmStream
  opened none = err (internal (codes "an AES-GCM key length the screen passed"))
  opened (some gcm) = ok gcm

  -- `CHUNK.min(ct_len).max(AES_GCM_TAG_LEN)`
  abbrev pub buffer_len : ℕ → ℕ
  buffer_len ct_len =
      let small = if leb chunk ct_len then chunk else ct_len in
      if leb small aes_gcm_tag_len then aes_gcm_tag_len else small

  unfoldable pub gcm_verify : Bytes → Bytes → Source → ℕ → Result IoError Bool
  gcm_verify key iv src ct_len = do
    gcm ← opened (new_gcm key iv)
    (last, rest) ← verify_loop ct_len (buffer_len ct_len) gcm ct_len src
    (want_tag, end) ← read_full aes_gcm_tag_len rest
    refuse_if (not (length want_tag == aes_gcm_tag_len)) unexpected_eof
    ok (ct_eq (tag last) want_tag)
