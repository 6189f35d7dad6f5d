-- ===== src/BadParameter/Display.antt =====
-- src/bad_parameter.rs: the text of a refused setting.
use odf_crypto.Prelude.{Str, codes, ◌++◌, decimal_text, to_string}
use odf_crypto.Types.{Cipher, blowfish_cfb8, aes_cbc_w3c, aes_gcm_w3c}
use odf_crypto.BadParameter.{
  Argon2Axis, ManifestField, Primitive, MemberFault, BadParameter, out_of_range, cipher_rejects,
  key_size_for_cipher, member, no_member,
}

unfoldable pub field_name : ManifestField → Str
field_name ManifestField.iteration_count = codes "manifest:iteration-count"
field_name (ManifestField.argon2 Argon2Axis.t) = codes "loext:argon2-iterations"
field_name (ManifestField.argon2 Argon2Axis.m_kib) = codes "loext:argon2-memory (KiB)"
field_name (ManifestField.argon2 Argon2Axis.p) = codes "loext:argon2-lanes"
field_name ManifestField.key_size = codes "manifest:key-size"
field_name ManifestField.size = codes "manifest:size"
field_name ManifestField.iv_len = codes "manifest:initialisation-vector length"
field_name ManifestField.salt_len = codes "manifest:salt length"
field_name ManifestField.encrypted_entries = codes "encrypted row count"

unfoldable pub primitive_name : Primitive → Str
primitive_name Primitive.argon2 = codes "argon2"
primitive_name Primitive.aes_gcm = codes "AES-GCM"
primitive_name Primitive.aes_cbc = codes "AES-CBC"
primitive_name Primitive.blowfish = codes "Blowfish"

unfoldable pub fault_text : MemberFault → Str
fault_text MemberFault.shorter_than_iv_and_tag =
    codes "an AES-GCM member is shorter than its IV and tag"
fault_text MemberFault.iv_mismatch = codes "an AES-GCM member does not begin with its manifest IV"
fault_text MemberFault.not_block_multiple =
    codes "an AES-CBC member is not a whole number of blocks"
fault_text MemberFault.longer_than_header = codes "a member is longer than its zip header says"

-- The derived `Debug` of `Cipher`
abbrev cipher_name : Cipher → Str
cipher_name blowfish_cfb8 = codes "BlowfishCfb8"
cipher_name aes_cbc_w3c = codes "AesCbcW3c"
cipher_name aes_gcm_w3c = codes "AesGcmW3c"

-- `Display`
unfoldable pub describe : BadParameter → Str
describe (out_of_range field got min max) =
    field_name field
    ++ codes " is "
    ++ to_string got
    ++ codes ", outside "
    ++ to_string min
    ++ codes "..="
    ++ to_string max
    ++ codes ", the range this crate acts on"
describe (cipher_rejects field primitive got min max) =
    field_name field
    ++ codes " is "
    ++ to_string got
    ++ codes ", outside "
    ++ to_string min
    ++ codes "..="
    ++ to_string max
    ++ codes ", which "
    ++ primitive_name primitive
    ++ codes " itself requires"
describe (key_size_for_cipher got cipher) =
    codes "manifest:key-size "
    ++ to_string got
    ++ codes " cannot be used with "
    ++ cipher_name cipher
describe (member fault) = fault_text fault
describe (no_member row) =
    codes "encrypted row " ++ decimal_text row ++ codes " names no zip member"
