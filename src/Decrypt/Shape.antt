-- ===== src/Decrypt/Shape.antt =====
-- src/decrypt.rs: what a row can be refused for without deriving a key.
pub mod Exact
use odf_crypto.Prelude.{
  ℕ, ◌+◌, ◌%◌, ◌^◌, ◌-◌, ℤ, pos, Bool, true, false, not, ◌&&◌, ◌||◌, List, [], ◌∷◌, Bytes, str_eq,
  leb, ltb, ◌==◌, if◌then◌else◌, in_range_ℤ, length, take, unsigned_abs, Result, ok, err, ◌>>=◌,
  ◌>>◌, refuse_if,
}
use odf_crypto.Types.{EntryEncryption, Cipher, aes_gcm_w3c, aes_cbc_w3c, blowfish_cfb8}
use odf_crypto.Limits.{
  aes_gcm_iv_len, aes_gcm_tag_len, aes_cbc_iv_len, aes_block_len, blowfish_iv_len, inflate_ceiling,
}
use odf_crypto.BadParameter.{
  BadParameter, ManifestField, Primitive, MemberFault, out_of_range, cipher_rejects,
  key_size_for_cipher, member, wide,
}
use odf_crypto.Decrypt.Errors.{DecryptError, bad_parameters}

-- `matches!(n, 16 | 24 | 32)`
abbrev pub is_aes_key_len : ℤ → Bool
is_aes_key_len (pos n) = n == 16 || n == 24 || n == 32
is_aes_key_len _ = false

unfoldable pub cipher_accepts_key_len : Cipher → ℤ → Bool
cipher_accepts_key_len aes_gcm_w3c n = is_aes_key_len n
cipher_accepts_key_len aes_cbc_w3c n = is_aes_key_len n
cipher_accepts_key_len blowfish_cfb8 n = in_range_ℤ 4 56 n

-- The closure `iv_len` of `screen_shape`.
abbrev pub check_iv_len : EntryEncryption → Primitive → ℕ → Result DecryptError Unit
check_iv_len row by_whom want = refuse_if (not (length row.iv == want)) (
    bad_parameters
      (cipher_rejects ManifestField.iv_len by_whom (wide (length row.iv)) (wide want) (wide want)))

-- The closure `member` of `screen_shape`, under a test.
abbrev pub refuse_member : Bool → MemberFault → Result DecryptError Unit
refuse_member test fault = refuse_if test (bad_parameters (member fault))

-- The `match` on the cipher.
unfoldable pub screen_member : Cipher → EntryEncryption → ℕ → Bytes → Result DecryptError Unit
screen_member aes_gcm_w3c row len head = do
  check_iv_len row Primitive.aes_gcm aes_gcm_iv_len
  refuse_member (ltb len (aes_gcm_iv_len + aes_gcm_tag_len) || ltb (length head) aes_gcm_iv_len)
      MemberFault.shorter_than_iv_and_tag
  refuse_member (not (str_eq (take aes_gcm_iv_len head) row.iv)) MemberFault.iv_mismatch
screen_member aes_cbc_w3c row len head = do
  check_iv_len row Primitive.aes_cbc aes_cbc_iv_len
  refuse_member (len == 0 || not (len % aes_block_len == 0)) MemberFault.not_block_multiple
screen_member blowfish_cfb8 row len head = check_iv_len row Primitive.blowfish blowfish_iv_len

unfoldable pub screen_shape : EntryEncryption → ℕ → Bytes → Result DecryptError Unit
screen_shape row len head = do
  refuse_if (not (cipher_accepts_key_len row.cipher row.derived_key_len))
      (bad_parameters (key_size_for_cipher row.derived_key_len row.cipher))
  screen_member row.cipher row len head

-- The cast of a size that is in range.
unfoldable pub inflated_len : ℤ → Result DecryptError ℕ
inflated_len size = do
  refuse_if (not (in_range_ℤ 0 inflate_ceiling size))
      (bad_parameters (out_of_range ManifestField.size size (pos 0) (wide inflate_ceiling)))
  ok (unsigned_abs size)

-- `u64::try_from` of an `i64`
unfoldable pub declared_size : ℤ → Result DecryptError ℕ
declared_size (pos n) = ok n
declared_size size =
    err (bad_parameters (out_of_range ManifestField.size size (pos 0) (pos (2 ^ 63 - 1))))

pub data Sizes : Type 0 where
  streamed whole_buffer : Sizes

-- `Sizes::declared`
unfoldable pub declared : Sizes → ℤ → Result DecryptError ℕ
declared streamed size = declared_size size
declared whole_buffer size = inflated_len size
