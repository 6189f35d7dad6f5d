-- ===== src/Stream/Gate.antt =====
-- src/stream.rs: `ChecksumGate`, which holds the first bytes back until their digest matches.
pub mod Spans
pub mod Release
use odf_crypto.Prelude.{
  ℕ, ◌+◌, ◌-◌, Bool, true, false, not, Bytes, leb, ltb, if◌then◌else◌, length, take, drop,
  overwrite, zeros, Result, ok, err, ◌>>=◌, ◌>>◌, refuse_if,
}
use odf_crypto.Types.{Checksum, no_checksum, sha1_1k, sha256_1k}
use odf_crypto.Limits.{checksum_window}
use odf_crypto.Kdf.{Hashes}
use odf_crypto.Stream.Source.{IoError, wrong_password, Source, read_full, read_some}
use odf_crypto.Stream.Bits.{ct_eq}

pub record ChecksumGate : Type 0 where
  pub src : Source
  pub checksum : Checksum
  pub window : Bytes
  pub position : ℕ
  pub len : ℕ
  pub verified : Bool

-- `ChecksumGate::new`, with its window allocated
abbrev pub new_gate : Source → Checksum → ChecksumGate
new_gate src checksum = record {
  src = src;
  checksum = checksum;
  window = zeros checksum_window;
  position = 0;
  len = 0;
  verified = false;
}

module _ (hashes : Hashes) where
  unfoldable pub window_matches : Checksum → Bytes → Bool
  window_matches (Checksum.sha1_1k want) window = ct_eq (hashes.sha1_digest window) want
  window_matches (Checksum.sha256_1k want) window = ct_eq (hashes.sha256_digest window) want
  window_matches no_checksum window = true

  unfoldable pub verify : ChecksumGate → Result IoError ChecksumGate
  verify gate =
      if gate.verified
      then ok gate
      else (read_full checksum_window gate.src >>= λ read.
          let window = overwrite 0 read.0 gate.window in
          refuse_if (not (window_matches gate.checksum (take (length read.0) window)))
            wrong_password
          >> ok
              (record gate { src = read.1; window = window; len = length read.0; verified = true }))

  -- From the window while it has bytes, else from the source.
  unfoldable pub release : ℕ → ChecksumGate → Result IoError (Bytes × ChecksumGate)
  release n gate =
      let count = if leb (gate.len - gate.position) n then gate.len - gate.position else n in
      if ltb gate.position gate.len
      then ok (
        take count (drop gate.position gate.window),
        record gate { position = gate.position + count },
      )
      else (read_some n gate.src >>= λ read. ok (read.0, record gate { src = read.1 }))

  -- `read` into a buffer of `n` bytes
  unfoldable pub read : ℕ → ChecksumGate → Result IoError (Bytes × ChecksumGate)
  read n gate = verify gate >>= release n
