-- ===== src/Encrypt/Key.antt =====
-- src/encrypt.rs: the key that a package is written under, and the refusals that the
-- classification makes. The hashes, the argon2 crate and the host are parameters.
pub mod Exact
pub mod Same
use odf_crypto.Prelude.{
  ℕ, not, if◌then◌else◌, Str, Bytes, codes, Result, ok, err, ◌>>=◌, ◌>>◌, refuse_if, map_err,
}
use odf_crypto.Types.{Classification, is_plain, sha256}
use odf_crypto.Limits.{argon2_max_t_cost_write, argon2_max_m_cost_kib_write}
use odf_crypto.BadParameter.Display.{describe}
use odf_crypto.Kdf.{Hashes, start_key}
use odf_crypto.Kdf.Argon2.{KdfError, Argon2Crate, Host, derive_argon2id}
use odf_crypto.Decrypt.Ceilings.{DecryptLimits, permissive}
use odf_crypto.Encrypt.Params.{
  Argon2Params, EncryptError, internal, host_cannot_allocate, already_encrypted,
  partially_encrypted, odf12_fatal, wholesome,
}

-- The write path's own ceilings.
abbrev pub write_limits : DecryptLimits
write_limits = record permissive {
  argon2_max_t = argon2_max_t_cost_write;
  argon2_max_m_kib = argon2_max_m_cost_kib_write;
}

abbrev pub write_kdf_error : KdfError → EncryptError
write_kdf_error (KdfError.params b) = internal (describe b)
write_kdf_error (KdfError.internal s) = internal s
write_kdf_error (KdfError.host_cannot_allocate n) = host_cannot_allocate n
write_kdf_error (KdfError.host_cannot_spawn n) = host_cannot_allocate n

module _ (hashes : Hashes) (crate : Argon2Crate) (host : Host) where
  unfoldable pub derive_write_key : Str → Bytes → Argon2Params → Result EncryptError Bytes
  derive_write_key password salt params = map_err write_kdf_error (
      derive_argon2id crate host (start_key hashes password sha256) salt params.t params.m_kib
        params.p write_limits wholesome.derived_key_len)

unfoldable pub screen_input : Classification → Result EncryptError Unit
screen_input class = do
  refuse_if (not (is_plain class.mode))
      (if class.package_encrypted then already_encrypted else partially_encrypted)
  refuse_if class.odf12_fatal odf12_fatal
  ok tt
