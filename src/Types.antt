-- ===== src/Types.antt =====
-- src/types.rs: the public classification types, and the manifest's property bag.
use odf_crypto.Prelude.{Bool, true, false, Option, none, List, [], Str, Bytes, ℤ}

pub data Mode : Type 0 where
  plain per_entry wholesome : Mode

pub data StartKeyAlg : Type 0 where
  sha1 sha256 : StartKeyAlg

pub data Cipher : Type 0 where
  blowfish_cfb8 aes_cbc_w3c aes_gcm_w3c : Cipher

pub data Kdf : Type 0 where
  pbkdf2 : ℤ → Bytes → Kdf
  argon2id : ℤ → ℤ → ℤ → Bytes → Kdf
  pgp_rsa_oaep_mgf1p : Kdf

-- `no_checksum` is the source's `None`.
pub data Checksum : Type 0 where
  no_checksum : Checksum
  sha1_1k : Bytes → Checksum
  sha256_1k : Bytes → Checksum

pub record EntryEncryption : Type 0 where
  pub path : Str
  pub cipher : Cipher
  pub kdf : Kdf
  pub start_key : StartKeyAlg
  pub checksum : Checksum
  pub size : ℤ
  pub iv : Bytes
  pub derived_key_len : ℤ

pub data ChecksumAlg : Type 0 where
  sha1_1k sha256_1k : ChecksumAlg

pub data KdfId : Type 0 where
  pbkdf2 argon2id pgp_rsa_oaep_mgf1p : KdfId

pub record EncryptedKey : Type 0 where
  pub key_id : Bytes
  pub key_packet : Bytes
  pub cipher_value : Bytes

pub record KeyInfo : Type 0 where
  pub keys : List EncryptedKey

pub record PropertyBag : Type 0 where
  pub full_path : Str
  pub media_type : Option Str
  pub version : Option Str
  pub size : Option ℤ
  pub salt : Option Bytes
  pub iv : Option Bytes
  pub iteration_count : Option ℤ
  pub derived_key_size : Option ℤ
  pub digest : Option Bytes
  pub digest_alg : Option ChecksumAlg
  pub enc_alg : Option Cipher
  pub start_key_alg : Option StartKeyAlg
  pub kdf : Option KdfId
  pub argon2_args : Option (ℤ × ℤ × ℤ)
  pub key_info : Option KeyInfo

pub record Classification : Type 0 where
  pub mode : Mode
  pub package_encrypted : Bool
  pub has_non_encrypted_entries : Bool
  pub odf_version : Option Str
  pub zip_has_encrypted_package : Bool
  pub media_type : Option Str
  pub common : Option EntryEncryption
  pub encrypted_entries : List EntryEncryption
  pub has_unexpected_streams : Bool
  pub odf12_fatal : Bool
  pub pgp_keys : List EncryptedKey

-- `io` is the latched read error of the caller's own reader.
pub data DetectError : Type 0 where
  not_zip missing_manifest : DetectError
  zip inconsistent : Str → DetectError
  io : Str → DetectError

-- `PropertyBag::default()`
abbrev pub default_bag : PropertyBag
default_bag = record {
  full_path = [];
  media_type = none;
  version = none;
  size = none;
  salt = none;
  iv = none;
  iteration_count = none;
  derived_key_size = none;
  digest = none;
  digest_alg = none;
  enc_alg = none;
  start_key_alg = none;
  kdf = none;
  argon2_args = none;
  key_info = none;
}

-- `EncryptedKey::default()`
abbrev pub default_key : EncryptedKey
default_key = record { key_id = []; key_packet = []; cipher_value = [] }

-- The derived `==` of `Cipher`, against its last variant.
abbrev pub is_aes_gcm : Cipher → Bool
is_aes_gcm aes_gcm_w3c = true
is_aes_gcm _ = false

abbrev pub is_plain : Mode → Bool
is_plain plain = true
is_plain _ = false

abbrev pub is_wholesome : Mode → Bool
is_wholesome wholesome = true
is_wholesome _ = false
