-- ===== src/Uris.antt =====
-- src/uris.rs: the literals of ODF manifests that LibreOffice matches, and what each names. A
-- literal is compared and not computed with, so it stays shut.
use odf_crypto.Prelude.{
  Bool, ◌||◌, Option, none, some, Str, codes, str_eq, if◌then◌else◌, Result, ok, err, ℤ, pos,
}
use odf_crypto.Types.{
  Cipher, blowfish_cfb8, aes_cbc_w3c, aes_gcm_w3c, ChecksumAlg, KdfId, StartKeyAlg, sha1, sha256,
}

unfoldable pub manifest_ns_ooo : Str
manifest_ns_ooo = codes "http://openoffice.org/2001/manifest"

unfoldable pub manifest_ns_oasis : Str
manifest_ns_oasis = codes "urn:oasis:names:tc:opendocument:xmlns:manifest:1.0"

unfoldable pub manifest_ns_loext : Str
manifest_ns_loext = codes "urn:org:documentfoundation:names:experimental:office:xmlns:loext:1.0"

unfoldable pub manifest_prefix : Str
manifest_prefix = codes "manifest:"

unfoldable pub element_manifest : Str
element_manifest = codes "manifest:manifest"

unfoldable pub element_file_entry : Str
element_file_entry = codes "manifest:file-entry"

unfoldable pub element_encryption_data : Str
element_encryption_data = codes "manifest:encryption-data"

unfoldable pub element_algorithm : Str
element_algorithm = codes "manifest:algorithm"

unfoldable pub element_start_key_generation : Str
element_start_key_generation = codes "manifest:start-key-generation"

unfoldable pub element_key_derivation : Str
element_key_derivation = codes "manifest:key-derivation"

unfoldable pub element_loext_keyinfo : Str
element_loext_keyinfo = codes "loext:keyinfo"

unfoldable pub element_loext_encrypted_key : Str
element_loext_encrypted_key = codes "loext:encrypted-key"

unfoldable pub element_loext_encryption_method : Str
element_loext_encryption_method = codes "loext:encryption-method"

unfoldable pub element_loext_keyinfo_dsig : Str
element_loext_keyinfo_dsig = codes "loext:KeyInfo"

unfoldable pub element_loext_pgp_data : Str
element_loext_pgp_data = codes "loext:PGPData"

unfoldable pub element_loext_pgp_key_id : Str
element_loext_pgp_key_id = codes "loext:PGPKeyID"

unfoldable pub element_loext_pgp_key_packet : Str
element_loext_pgp_key_packet = codes "loext:PGPKeyPacket"

unfoldable pub element_loext_cipher_data : Str
element_loext_cipher_data = codes "loext:CipherData"

unfoldable pub element_loext_cipher_value : Str
element_loext_cipher_value = codes "loext:CipherValue"

unfoldable pub element_manifest_keyinfo : Str
element_manifest_keyinfo = codes "manifest:keyinfo"

unfoldable pub element_manifest_encrypted_key : Str
element_manifest_encrypted_key = codes "manifest:encrypted-key"

unfoldable pub element_manifest_encryption_method : Str
element_manifest_encryption_method = codes "manifest:encryption-method"

unfoldable pub element_manifest_pgp_data : Str
element_manifest_pgp_data = codes "manifest:PGPData"

unfoldable pub element_manifest_pgp_key_id : Str
element_manifest_pgp_key_id = codes "manifest:PGPKeyID"

unfoldable pub element_manifest_pgp_key_packet : Str
element_manifest_pgp_key_packet = codes "manifest:PGPKeyPacket"

unfoldable pub element_manifest_cipher_data : Str
element_manifest_cipher_data = codes "manifest:CipherData"

unfoldable pub element_manifest_cipher_value : Str
element_manifest_cipher_value = codes "manifest:CipherValue"

unfoldable pub attr_full_path : Str
attr_full_path = codes "manifest:full-path"

unfoldable pub attr_version : Str
attr_version = codes "manifest:version"

unfoldable pub attr_media_type : Str
attr_media_type = codes "manifest:media-type"

unfoldable pub attr_size : Str
attr_size = codes "manifest:size"

unfoldable pub attr_checksum_type : Str
attr_checksum_type = codes "manifest:checksum-type"

unfoldable pub attr_checksum : Str
attr_checksum = codes "manifest:checksum"

unfoldable pub attr_algorithm_name : Str
attr_algorithm_name = codes "manifest:algorithm-name"

unfoldable pub attr_iv : Str
attr_iv = codes "manifest:initialisation-vector"

unfoldable pub attr_start_key_name : Str
attr_start_key_name = codes "manifest:start-key-generation-name"

unfoldable pub attr_key_size : Str
attr_key_size = codes "manifest:key-size"

unfoldable pub attr_key_derivation_name : Str
attr_key_derivation_name = codes "manifest:key-derivation-name"

unfoldable pub attr_salt : Str
attr_salt = codes "manifest:salt"

unfoldable pub attr_iteration_count : Str
attr_iteration_count = codes "manifest:iteration-count"

unfoldable pub attr_argon2_t : Str
attr_argon2_t = codes "manifest:argon2-iterations"

unfoldable pub attr_argon2_m : Str
attr_argon2_m = codes "manifest:argon2-memory"

unfoldable pub attr_argon2_p : Str
attr_argon2_p = codes "manifest:argon2-lanes"

unfoldable pub attr_argon2_t_lo : Str
attr_argon2_t_lo = codes "loext:argon2-iterations"

unfoldable pub attr_argon2_m_lo : Str
attr_argon2_m_lo = codes "loext:argon2-memory"

unfoldable pub attr_argon2_p_lo : Str
attr_argon2_p_lo = codes "loext:argon2-lanes"

unfoldable pub attr_pgp_algorithm_lo : Str
attr_pgp_algorithm_lo = codes "loext:PGPAlgorithm"

unfoldable pub attr_pgp_algorithm : Str
attr_pgp_algorithm = codes "manifest:PGPAlgorithm"

unfoldable pub sha256_url : Str
sha256_url = codes "http://www.w3.org/2001/04/xmlenc#sha256"

unfoldable pub sha256_url_odf12 : Str
sha256_url_odf12 = codes "http://www.w3.org/2000/09/xmldsig#sha256"

unfoldable pub sha1_name : Str
sha1_name = codes "SHA1"

unfoldable pub sha1_url : Str
sha1_url = codes "http://www.w3.org/2000/09/xmldsig#sha1"

unfoldable pub sha1_1k_name : Str
sha1_1k_name = codes "SHA1/1K"

unfoldable pub sha1_1k_url : Str
sha1_1k_url = codes "urn:oasis:names:tc:opendocument:xmlns:manifest:1.0#sha1-1k"

unfoldable pub sha256_1k_url : Str
sha256_1k_url = codes "urn:oasis:names:tc:opendocument:xmlns:manifest:1.0#sha256-1k"

unfoldable pub blowfish_name : Str
blowfish_name = codes "Blowfish CFB"

unfoldable pub blowfish_url : Str
blowfish_url = codes "urn:oasis:names:tc:opendocument:xmlns:manifest:1.0#blowfish"

unfoldable pub aes128_url : Str
aes128_url = codes "http://www.w3.org/2001/04/xmlenc#aes128-cbc"

unfoldable pub aes192_url : Str
aes192_url = codes "http://www.w3.org/2001/04/xmlenc#aes192-cbc"

unfoldable pub aes256_url : Str
aes256_url = codes "http://www.w3.org/2001/04/xmlenc#aes256-cbc"

unfoldable pub aesgcm128_url : Str
aesgcm128_url = codes "http://www.w3.org/2009/xmlenc11#aes128-gcm"

unfoldable pub aesgcm192_url : Str
aesgcm192_url = codes "http://www.w3.org/2009/xmlenc11#aes192-gcm"

unfoldable pub aesgcm256_url : Str
aesgcm256_url = codes "http://www.w3.org/2009/xmlenc11#aes256-gcm"

unfoldable pub pbkdf2_name : Str
pbkdf2_name = codes "PBKDF2"

unfoldable pub pgp_name : Str
pgp_name = codes "PGP"

unfoldable pub pbkdf2_url : Str
pbkdf2_url = codes "urn:oasis:names:tc:opendocument:xmlns:manifest:1.0#pbkdf2"

unfoldable pub argon2id_url : Str
argon2id_url = codes "urn:oasis:names:tc:opendocument:xmlns:manifest:1.5#argon2id"

unfoldable pub argon2id_url_lo : Str
argon2id_url_lo = codes "urn:org:documentfoundation:names:experimental:office:manifest:argon2id"

unfoldable pub pgp_wrap_uri : Str
pgp_wrap_uri = codes "http://www.w3.org/2001/04/xmlenc#rsa-oaep-mgf1p"

unfoldable pub cipher_from_algorithm_name : Str → Result Unit (Cipher × Option ℤ)
cipher_from_algorithm_name name =
    if str_eq name blowfish_name || str_eq name blowfish_url
    then ok (blowfish_cfb8, none)
    else if str_eq name aesgcm256_url
    then ok (aes_gcm_w3c, some (pos 32))
    else if str_eq name aesgcm192_url
    then ok (aes_gcm_w3c, some (pos 24))
    else if str_eq name aesgcm128_url
    then ok (aes_gcm_w3c, some (pos 16))
    else if str_eq name aes256_url
    then ok (aes_cbc_w3c, some (pos 32))
    else if str_eq name aes192_url
    then ok (aes_cbc_w3c, some (pos 24))
    else if str_eq name aes128_url
    then ok (aes_cbc_w3c, some (pos 16))
    else err tt

unfoldable pub default_derived_key_size : Cipher → ℤ
default_derived_key_size blowfish_cfb8 = pos 16
default_derived_key_size aes_cbc_w3c = pos 32
default_derived_key_size aes_gcm_w3c = pos 32

unfoldable pub start_key_from_name : Str → Result Unit StartKeyAlg
start_key_from_name name =
    if str_eq name sha256_url || str_eq name sha256_url_odf12
    then ok sha256
    else if str_eq name sha1_name || str_eq name sha1_url
    then ok sha1
    else err tt

unfoldable pub checksum_alg_from_type : Str → Option ChecksumAlg
checksum_alg_from_type name =
    if str_eq name sha1_1k_name || str_eq name sha1_1k_url
    then some ChecksumAlg.sha1_1k
    else if str_eq name sha256_1k_url
    then some ChecksumAlg.sha256_1k
    else none

unfoldable pub password_kdf_from_name : Str → Option KdfId
password_kdf_from_name name =
    if str_eq name pbkdf2_name || str_eq name pbkdf2_url
    then some KdfId.pbkdf2
    else if str_eq name argon2id_url || str_eq name argon2id_url_lo
    then some KdfId.argon2id
    else none

unfoldable pub is_manifest_namespace : Str → Bool
is_manifest_namespace uri = str_eq uri manifest_ns_ooo || str_eq uri manifest_ns_oasis

unfoldable pub is_pgp_wrap_uri : Str → Bool
is_pgp_wrap_uri uri = str_eq uri pgp_wrap_uri
