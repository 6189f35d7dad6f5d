-- ===== src/Kdf.antt =====
-- src/kdf.rs: the start keys. SHA-1 and SHA-256 are third-party: `sha1` and `sha256` give a
-- message's digest, and `compress` takes the state through some blocks of SHA-1.
pub mod StarOffice
pub mod Argon2
use odf_crypto.Prelude.{
  ℕ, ◌+◌, ◌-◌, ◌*◌, ◌%◌, ◌^◌, List, [], ◌∷◌, ◌++◌, Str, Bytes, as_bytes, leb, if◌then◌else◌, length,
  take, drop, zeros, write_at, chunks_64, be_bytes,
}
use odf_crypto.Types.{StartKeyAlg, sha1, sha256}
use odf_crypto.Ms1252.{encode}

pub data LegacyStartKey : Type 0 where
  star_office_utf8 forced_sha256 star_office_ms1252 : LegacyStartKey

abbrev pub sha1_ladder : List LegacyStartKey
sha1_ladder = star_office_utf8 ∷ forced_sha256 ∷ star_office_ms1252 ∷ []

abbrev pub sha1_init : List ℕ
sha1_init = 0x67452301 ∷ 0xEFCDAB89 ∷ 0x98BADCFE ∷ 0x10325476 ∷ 0xC3D2E1F0 ∷ []

abbrev pub sha1_block : ℕ
sha1_block = 64

-- `padded`: the tail, its terminator and the length in bits, in a zeroed buffer.
unfoldable pub pad : Bytes → ℕ → Bytes
pad tail bit_len =
    let padded_len = if leb 52 (length tail) then 2 * sha1_block else sha1_block in
    write_at (padded_len - 8) (be_bytes 8 bit_len)
      (write_at (length tail) (0x80 ∷ []) (write_at 0 tail (zeros padded_len)))

-- The words of the state, in order.
abbrev pub state_bytes : List ℕ → Bytes
state_bytes [] = []
state_bytes (w ∷ words) = be_bytes 4 w ++ state_bytes words

-- The state's words fill the 20 bytes of the slot, as many as there is room for.
abbrev pub digest_slot : List ℕ → Bytes
digest_slot state = take 20 (state_bytes state)

pub record Hashes : Type 0 where
  pub sha1_digest : Bytes → Bytes
  pub sha256_digest : Bytes → Bytes
  pub compress : List ℕ → List Bytes → List ℕ

module _ (hashes : Hashes) where
  unfoldable pub start_key : Str → StartKeyAlg → Bytes
  start_key password sha1 = hashes.sha1_digest (as_bytes password)
  start_key password sha256 = hashes.sha256_digest (as_bytes password)

  unfoldable pub staroffice_sha1 : Bytes → Bytes
  staroffice_sha1 msg =
      let full = length msg - length msg % sha1_block in
      let state = hashes.compress sha1_init (chunks_64 (take full msg)) in
      digest_slot
        (hashes.compress state (chunks_64 (pad (drop full msg) (length msg % 2 ^ 64 * 8 % 2 ^ 64))))

  unfoldable pub legacy_start_key : Str → LegacyStartKey → Bytes
  legacy_start_key password star_office_utf8 = staroffice_sha1 (as_bytes password)
  legacy_start_key password forced_sha256 = start_key password sha256
  legacy_start_key password star_office_ms1252 = staroffice_sha1 (encode password)
