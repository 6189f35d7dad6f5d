-- ===== src/Decrypt/Member.antt =====
-- src/decrypt_stream.rs: the two passes over an AES-GCM member, and the wholesome package. Each pass
-- opens the member again, so what the openings give is a parameter, one for each pass; the inflater
-- and the writer are those of the streams.
pub mod Plain
pub mod Released
pub mod Verified
use odf_crypto.Prelude.{
  ℕ, zero, suc, ◌+◌, ◌-◌, ◌*◌, Bool, true, false, not, Option, none, some, [], ◌∷◌, ◌++◌, Str,
  Bytes, codes, ◌==◌, if◌then◌else◌, is_empty, length, drop, Result, ok, err, ◌>>=◌, ◌>>◌,
  refuse_if, map_err,
}
use odf_crypto.Types.{EntryEncryption}
use odf_crypto.Limits.{aes_gcm_iv_len, aes_gcm_tag_len}
use odf_crypto.BadParameter.{MemberFault, member}
use odf_crypto.Classify.Members.{Archive}
use odf_crypto.Decrypt.Ceilings.{DecryptLimits, default_limits}
use odf_crypto.Decrypt.Errors.{DecryptError, AllocationSite}
use odf_crypto.Decrypt.Screen.{member_for_archive, no_member}
use odf_crypto.Decrypt.Shape.{Sizes, declared, screen_shape}
use odf_crypto.Decrypt.Plan.{member_shape}
use odf_crypto.Decrypt.Keys.{Crypto, find_key}
use odf_crypto.Stream.Source.{IoError, Source, read_full}
use odf_crypto.Stream.Sink.{Fault, fault_message, StreamError, Sink, chunk_buffer}
use odf_crypto.Stream.Gcm.{AesCrates, GcmStream, chunk, new_gcm, gcm_verify}
use odf_crypto.Stream.Opening.{GcmDecryptReader, new_reader, open_read}
use odf_crypto.Stream.Reader.{Reader, stream_error}
use odf_crypto.Stream.Inflate.{Decompressor, InflateReader, with_tap, inflate_read}

-- The texts of the standard library.
abbrev error_text : StreamError → Str
error_text (StreamError.fault f) = fault_message f
error_text StreamError.unexpected_eof = codes "unexpected end of file"
error_text StreamError.write_zero = codes "failed to write whole buffer"
error_text StreamError.still_running = codes "still running"
error_text (StreamError.io message) = message

unfoldable pub fault_error : DecryptLimits → Fault → DecryptError
fault_error limits Fault.wrong_password = DecryptError.wrong_password
fault_error limits Fault.changed =
    DecryptError.io (codes "the input changed between the verify and release passes")
fault_error limits (Fault.bad_parameters b) = DecryptError.bad_parameters b
fault_error limits (Fault.internal s) = DecryptError.internal s
fault_error limits (Fault.inflate s) = DecryptError.inflate s
fault_error limits Fault.output_limit = DecryptError.output_limit limits.max_output_bytes
fault_error limits (Fault.alloc n) =
    DecryptError.host_cannot_allocate AllocationSite.stream_buffer n
fault_error limits (Fault.deflate s) = DecryptError.internal (codes "deflate failed: " ++ s)

unfoldable pub read_error_with : DecryptLimits → StreamError → DecryptError
read_error_with limits (StreamError.fault f) = fault_error limits f
read_error_with limits e = DecryptError.zip (error_text e)

abbrev pub read_error : IoError → DecryptError
read_error e = read_error_with default_limits (stream_error e)

abbrev shorter_than_iv_and_tag : DecryptError
shorter_than_iv_and_tag = DecryptError.bad_parameters (member MemberFault.shorter_than_iv_and_tag)

abbrev gcm_key_error : DecryptError
gcm_key_error = DecryptError.internal (codes "an AES-GCM key length screen_shape passed")

abbrev pub or_error : {A : Type 0} → Option A → DecryptError → Result DecryptError A
or_error none e = err e
or_error (some a) e = ok a

unfoldable pub buffer : (ℕ → Bool) → Result DecryptError Bytes
buffer can_reserve =
    map_err (λ f. DecryptError.host_cannot_allocate AllocationSite.stream_buffer chunk)
      (chunk_buffer can_reserve chunk)

-- `ensure_end`: one byte more is one too many.
unfoldable pub ensure_end : Source → Result DecryptError Unit
ensure_end src = do
  (one, rest) ← map_err read_error (read_full 1 src)
  refuse_if (not (is_empty one))
      (DecryptError.bad_parameters (member MemberFault.longer_than_header))

-- `open_after_iv`, of what an opening gives
unfoldable pub open_after_iv : Result Str Source → Result DecryptError Source
open_after_iv opening = do
  file ← map_err DecryptError.zip opening
  (iv, rest) ← map_err read_error (read_full aes_gcm_iv_len file)
  refuse_if (not (length iv == aes_gcm_iv_len)) shorter_than_iv_and_tag
  ok rest

-- The verify pass opens the member anew for each key that it tries.
pub record Openings : Type 0 where
  pub verify_pass : Bytes → Result Str Source
  pub release_pass : Result Str Source

-- The length of the ciphertext of a member, which is as long as a vector and a tag at least.
abbrev pub ct_len_of : ℕ → ℕ
ct_len_of len = len - (aes_gcm_iv_len + aes_gcm_tag_len)

module _ (crates : AesCrates) (crypto : Crypto) where
  -- The test of a key: the tag of the member, and its end behind the tag.
  unfoldable pub accepts_tag :
      (Bytes → Result Str Source) → EntryEncryption → ℕ → Bytes → Result DecryptError Bool
  accepts_tag opening row ct_len k = do
    file ← open_after_iv (opening k)
    is_right ← map_err read_error (gcm_verify crates k row.iv file ct_len)
    ensure_end (record file { bytes = drop (ct_len + aes_gcm_tag_len) file.bytes })
    ok is_right

  unfoldable pub gcm_key :
      (Bytes → Result Str Source)
      → EntryEncryption
      → ℕ
      → Str
      → DecryptLimits
      → Result DecryptError Bytes
  gcm_key opening row len password limits =
      find_key crypto row limits (accepts_tag opening row (ct_len_of len)) password

  -- The loop of `drain`; each read takes a byte, or is the last one, which checks the tag.
  unfoldable pub drain_loop :
      ℕ → GcmDecryptReader crates → Result DecryptError (GcmDecryptReader crates)
  drain_loop zero r = ok r
  drain_loop (suc fuel) r = do
    (got, next) ← map_err read_error (open_read crates chunk r)
    elim (is_empty got) [ true ↦ ok next | false ↦ drain_loop fuel next ]

  unfoldable pub drain : GcmDecryptReader crates → Result DecryptError (GcmDecryptReader crates)
  drain r = do buf ← buffer crypto.host.can_reserve; drain_loop (r.left + 2) r

  -- `&mut plain` as a reader
  abbrev pub plain_reader : Reader
  plain_reader = record {
    State = GcmDecryptReader crates;
    read = λ n r. map_err stream_error (open_read crates n r);
    bound = λ r. r.left;
  }

  module _ {A : Type 0}
      (release : GcmDecryptReader crates → Result DecryptError (A × GcmDecryptReader crates)) where
    unfoldable pub gcm_member :
        Openings → EntryEncryption → ℕ → Str → DecryptLimits → Result DecryptError A
    gcm_member openings row len password limits = do
      key ← gcm_key openings.verify_pass row len password limits
      file ← open_after_iv openings.release_pass
      gcm ← or_error (new_gcm crates key row.iv) gcm_key_error
      (result, plain) ← release (new_reader crates file gcm (ct_len_of len))
      drained ← drain plain
      ensure_end drained.src
      ok result

  module _ (miniz : Decompressor) (sink : Sink) where
    -- `io::Sink`, as the bytes that it was given, which nothing reads.
    abbrev pub no_tap : Sink
    no_tap = record { State = Bytes; write_all = λ s b. ok (s ++ b) }

    abbrev pub Inflating : Type 0
    Inflating = InflateReader miniz plain_reader no_tap

    -- The loop of `copy_out`; each turn but the last writes a byte at least.
    unfoldable pub copy_loop :
        ℕ → DecryptLimits → Inflating → sink.State → Result DecryptError (sink.State × Inflating)
    copy_loop zero limits r w = ok (w, r)
    copy_loop (suc fuel) limits r w = do
      (got, next) ←
          map_err (read_error_with limits) (inflate_read miniz plain_reader no_tap chunk r)
      elim (is_empty got) [
        | true ↦ ok (w, next)
        | false ↦
            map_err (λ e. DecryptError.io (error_text e)) (sink.write_all w got)
            >>= copy_loop fuel limits next
      ]

    unfoldable pub copy_out :
        GcmDecryptReader crates
        → sink.State
        → ℕ
        → DecryptLimits
        → Result DecryptError (sink.State × GcmDecryptReader crates)
    copy_out deflated w expected limits = do
      inflate ← map_err (fault_error limits) (
          with_tap miniz plain_reader no_tap crypto.host.can_reserve deflated expected
            limits.max_output_bytes [])
      buf ← buffer crypto.host.can_reserve
      (written, last) ← copy_loop (expected + 2) limits inflate w
      ok (written, last.src)

    module _ (from_utf8_lossy : Bytes → Str) (archive : Archive) (openings : ℕ → Openings) where
      unfoldable pub wholesome_to :
          ℕ
          → EntryEncryption
          → sink.State
          → Str
          → DecryptLimits
          → Sizes
          → Result DecryptError sink.State
      wholesome_to row_index row w password limits sizes = do
        expected ← declared sizes row.size
        found ← member_for_archive from_utf8_lossy archive row.path (no_member row_index)
        shape ← member_shape archive found.0
        screen_shape row shape.0 shape.1
        gcm_member (λ plain. copy_out plain w expected limits) (openings found.0) row shape.0
            password limits
