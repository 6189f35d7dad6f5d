-- ===== src/Decrypt/Errors.antt =====
-- src/decrypt.rs: `DecryptError`, and the verdict on an error of the key derivation. An error of a
-- reader or writer is its text.
use odf_crypto.Prelude.{ℕ, Str, Bytes, Result, ok, err, zeros, Bool, true, false}
use odf_crypto.Types.{DetectError}
use odf_crypto.BadParameter.{BadParameter}
use odf_crypto.Kdf.Argon2.{KdfError}

pub data AllocationSite : Type 0 where
  key_derivation derived_key member_plaintext package_plaintext : AllocationSite
  cipher_buffer stream_buffer kdf_thread : AllocationSite

pub data DecryptError : Type 0 where
  classify : DetectError → DecryptError
  not_encrypted empty_password unsupported_pgp odf12_fatal wrong_password : DecryptError
  bad_parameters : BadParameter → DecryptError
  internal : Str → DecryptError
  host_cannot_allocate : AllocationSite → ℕ → DecryptError
  inflate zip : Str → DecryptError
  output_limit : ℕ → DecryptError
  io : Str → DecryptError

-- `can_reserve` is whether `try_reserve_exact` of so many bytes succeeds on this host.
unfoldable pub try_zeroed : (ℕ → Bool) → ℕ → AllocationSite → Result DecryptError Bytes
try_zeroed can_reserve n site = elim (can_reserve n) [
  | true ↦ ok (zeros n)
  | false ↦ err (host_cannot_allocate site n)
]

abbrev pub kdf_error : KdfError → DecryptError
kdf_error (KdfError.params b) = bad_parameters b
kdf_error (KdfError.internal s) = internal s
kdf_error (KdfError.host_cannot_allocate n) = host_cannot_allocate key_derivation n
kdf_error (KdfError.host_cannot_spawn n) = host_cannot_allocate kdf_thread n
