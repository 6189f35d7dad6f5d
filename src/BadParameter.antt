-- ===== src/BadParameter.antt =====
-- src/bad_parameter.rs: which setting of a package is refused, and `Argon2Axis` of src/encrypt.rs.
pub mod Honest
pub mod Display
use odf_crypto.Prelude.{
  ℕ, ◌-◌, ◌^◌, Bool, true, false, not, ◌&&◌, leb, if◌then◌else◌, ℤ, pos, negsuc,
}
use odf_crypto.Types.{Cipher, aes_gcm_w3c, aes_cbc_w3c, blowfish_cfb8}

pub data Argon2Axis : Type 0 where
  t m_kib p : Argon2Axis

pub data ManifestField : Type 0 where
  iteration_count key_size size iv_len salt_len encrypted_entries : ManifestField
  argon2 : Argon2Axis → ManifestField

pub data Primitive : Type 0 where
  argon2 aes_gcm aes_cbc blowfish : Primitive

pub data MemberFault : Type 0 where
  shorter_than_iv_and_tag iv_mismatch not_block_multiple longer_than_header : MemberFault

-- The fields are `got`, `min` and `max`, after the field and whose rule it is.
pub data BadParameter : Type 0 where
  out_of_range : ManifestField → ℤ → ℤ → ℤ → BadParameter
  cipher_rejects : ManifestField → Primitive → ℤ → ℤ → ℤ → BadParameter
  key_size_for_cipher : ℤ → Cipher → BadParameter
  member : MemberFault → BadParameter
  no_member : ℕ → BadParameter

-- A count that does not fit an `i64` is its greatest value.
unfoldable pub wide : ℕ → ℤ
wide n = pos (if leb n (2 ^ 63 - 1) then n else 2 ^ 63 - 1)
