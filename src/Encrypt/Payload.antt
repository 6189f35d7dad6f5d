-- ===== src/Encrypt/Payload.antt =====
-- src/encrypt_stream.rs: the three members of the package that is written. The zip crate's writer
-- is a parameter.
pub mod Opens
use odf_crypto.Prelude.{
  ℕ, zero, suc, ◌+◌, ◌-◌, ◌*◌, ◌/◌, ◌%◌, ◌^◌, Bool, true, false, not, Option, none, some, [], ◌∷◌,
  ◌++◌, Str, Bytes, codes, as_bytes, decimal_text, leb, ltb, ◌==◌, if◌then◌else◌, is_empty, length,
  Result, ok, err, ◌>>=◌, ◌>>◌, refuse_if, map_err,
}
use odf_crypto.ZipErr.{ZipError, message}
use odf_crypto.Kdf.Argon2.{Host}
use odf_crypto.Limits.{aes_gcm_tag_len}
use odf_crypto.Stream.Source.{IoError, Source, read_some}
use odf_crypto.Stream.Sink.{Fault, StreamError, Sink, chunk_buffer, fault_message}
use odf_crypto.Stream.Gcm.{AesCrates, chunk, new_gcm}
use odf_crypto.Stream.Sealing.{new_sealer, sealing, finish_seal}
use odf_crypto.Stream.Deflate.{Compressor, DeflateWriter, adaptive, write, finish}
use odf_crypto.Encrypt.Params.{EncryptError}

-- `SimpleFileOptions` as `file_options` makes them.
pub record FileOptions : Type 0 where
  pub is_deflated : Bool
  pub large_file : Bool

pub record ZipOut : Type 1 where
  pub State : Type 0
  pub new : State
  pub start_file : State → Str → FileOptions → Result ZipError State
  pub write_all : State → Bytes → Result StreamError State
  pub finish : State → Result ZipError State

-- `saturating_add` and `saturating_mul` of `u64`
abbrev saturating : ℕ → ℕ
saturating n = if ltb n (2 ^ 64) then n else 2 ^ 64 - 1

-- `deflate_bound` of src/zip_stream.rs
unfoldable pub deflate_bound : ℕ → ℕ
deflate_bound n = saturating (saturating (n + saturating ((n / 65535 + 1) * 10)) + 64)

abbrev pub fault_error : Fault → EncryptError
fault_error (Fault.alloc n) = EncryptError.host_cannot_allocate n
fault_error (Fault.deflate s) = EncryptError.deflate s
fault_error f = EncryptError.internal (fault_message f)

-- `write_error`; the texts are those of the standard library.
abbrev pub write_error : StreamError → EncryptError
write_error (StreamError.fault f) = fault_error f
write_error StreamError.unexpected_eof = EncryptError.io (codes "unexpected end of file")
write_error StreamError.write_zero = EncryptError.io (codes "failed to write whole buffer")
write_error StreamError.still_running = EncryptError.io (codes "still running")
write_error (StreamError.io message) = EncryptError.io message

-- `EncryptError::Io` of a write to the zip, whatever the error.
abbrev io_error : StreamError → EncryptError
io_error (StreamError.fault f) = EncryptError.io (fault_message f)
io_error e = write_error e

-- The error of the caller's reader.
abbrev read_error : IoError → EncryptError
read_error (IoError.internal s) = EncryptError.io s
read_error IoError.wrong_password = EncryptError.io (codes "wrong password")
read_error IoError.changed = EncryptError.io (codes "input changed between passes")
read_error IoError.unexpected_eof = EncryptError.io (codes "unexpected end of file")
read_error (IoError.other message) = EncryptError.io message

-- `to_zip`
abbrev to_zip : ZipError → EncryptError
to_zip (ZipError.io error) = EncryptError.io error
to_zip e = EncryptError.zip (message e)

-- `mimetype.as_deref().map(str::as_bytes).unwrap_or(&[])`
abbrev pub member_bytes : Option Str → Bytes
member_bytes none = []
member_bytes (some mt) = as_bytes mt

abbrev key_error : EncryptError
key_error = EncryptError.internal (codes "AES-256-GCM key")

abbrev pub or_key_error : {A : Type 0} → Option A → Result EncryptError A
or_key_error none = err key_error
or_key_error (some a) = ok a

module _ (crates : AesCrates) (miniz : Compressor) (carries_no_more : Bytes → Bool) (out : ZipOut)
    (host : Host) where
  abbrev pub out_sink : Sink
  out_sink = record { State = out.State; write_all = out.write_all }

  abbrev pub Deflater : Type 0
  Deflater = DeflateWriter miniz carries_no_more (sealing crates out_sink)

  -- `write_all` of the deflater, which takes all of a buffer that is not empty in one call.
  abbrev pub deflate_all : Deflater → Bytes → Result StreamError Deflater
  deflate_all w [] = ok w
  deflate_all w (b ∷ bytes) = write miniz carries_no_more (sealing crates out_sink) w (b ∷ bytes)

  -- The loop of `pump`; a round that reads something leaves less, so the fuel outlasts them.
  unfoldable pub pump_input : ℕ → Source → Deflater → Result EncryptError Deflater
  pump_input zero src w = ok w
  pump_input (suc fuel) src w = do
    (got, rest) ← map_err read_error (read_some chunk src)
    elim (is_empty got) [
      | true ↦ ok w
      | false ↦ map_err write_error (deflate_all w got) >>= pump_input fuel rest
    ]

  -- The closure under `key.with_secret`: the member behind its vector.
  unfoldable pub write_payload :
      Bytes → Bytes → Source → ℕ → out.State → Result EncryptError out.State
  write_payload key iv source size dst = do
    gcm ← or_key_error (new_gcm crates key iv)
    sealer ← map_err fault_error (new_sealer crates out_sink host.can_reserve dst gcm)
    deflate ←
        map_err fault_error
          (adaptive miniz carries_no_more (sealing crates out_sink) host.can_reserve sealer)
    buf ← map_err fault_error (chunk_buffer host.can_reserve chunk)
    pumped ← pump_input (length source.bytes + 1) source deflate
    refuse_if (not (pumped.consumed == size)) (
        EncryptError.internal (
          codes "read "
          ++ decimal_text pumped.consumed
          ++ codes " bytes of a "
          ++ decimal_text size
          ++ codes "-byte input"))
    sealed ← map_err write_error (finish miniz carries_no_more (sealing crates out_sink) pumped)
    map_err write_error (finish_seal crates out_sink sealed)

  abbrev pub start : out.State → Str → Bool → Bool → Result EncryptError out.State
  start s name is_deflated large_file =
      map_err to_zip
        (out.start_file s name (record { is_deflated = is_deflated; large_file = large_file }))

  abbrev pub put : out.State → Bytes → Result EncryptError out.State
  put s bytes = map_err io_error (out.write_all s bytes)

  -- The three members.
  unfoldable pub write_package :
      Option Str → Bytes → Bytes → Bytes → Source → ℕ → Result EncryptError out.State
  write_package mimetype key iv manifest_xml source size = do
    mimetype_started ← start out.new (codes "mimetype") false false
    mimetype_written ← put mimetype_started (member_bytes mimetype)
    let worst = (length iv + aes_gcm_tag_len + deflate_bound size) % 2 ^ 64
    payload_started ←
        start mimetype_written (codes "encrypted-package") false (leb (2 ^ 32 - 1) worst)
    iv_written ← put payload_started iv
    payload_written ← write_payload key iv source size iv_written
    manifest_started ← start payload_written (codes "META-INF/manifest.xml") true false
    manifest_written ← put manifest_started manifest_xml
    map_err to_zip (out.finish manifest_written)
