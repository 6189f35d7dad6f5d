-- ===== src/Manifest/Fields.antt =====
-- src/manifest.rs: the handlers that read one element's attributes or characters.
use odf_crypto.Prelude.{
  true, not, ◌&&◌, ◌||◌, Option, none, some, [], ◌∷◌, Str, Bytes, str_eq, if◌then◌else◌, is_some,
  unwrap_or, Assoc, get, ok, err, ℤ, pos, is_positive, is_zero,
}
use odf_crypto.Types.{PropertyBag, EncryptedKey, default_bag, default_key, KdfId, Cipher}
use odf_crypto.Uris
use odf_crypto.Manifest.LoInt.{parse_i32, parse_i64}
use odf_crypto.Manifest.Base64.{decode_b64}
use odf_crypto.Manifest.Import.{Import}

-- `attrs.get(key).map(String::as_str).unwrap_or("")`
abbrev pub attr_or_empty : Str → Assoc Str → Str
attr_or_empty key attrs = unwrap_or (get key attrs) []

-- `if let Some(v) = … && !v.is_empty()`
abbrev pub nonempty : Option Str → Option Str
nonempty none = none
nonempty (some []) = none
nonempty (some (c ∷ s)) = some (c ∷ s)

unfoldable pub do_file_entry : Import → Assoc Str → Import
do_file_entry s attrs = record s {
  bag = record default_bag {
    full_path = attr_or_empty Uris.attr_full_path attrs;
    media_type = some (attr_or_empty Uris.attr_media_type attrs);
    version = nonempty (get Uris.attr_version attrs);
    size = elim (nonempty (get Uris.attr_size attrs)) [
      | none ↦ none
      | some size ↦ some (parse_i64 size)
    ];
  };
}

unfoldable pub do_encrypted_key : Import → Import
do_encrypted_key s = record s { current_key = some default_key }

unfoldable pub do_encryption_method : Import → Assoc Str → Str → Import
do_encryption_method s attrs algo_attr =
    if not (is_some s.current_key) || not (Uris.is_pgp_wrap_uri (attr_or_empty algo_attr attrs))
    then record s { ignore_encrypt_data = true }
    else s

-- A decoded slot of the current key, or without one the rest is ignored.
abbrev pub set_key : Import → (Bytes → EncryptedKey → EncryptedKey) → Import
set_key s slot = elim s.current_key [
  | some key ↦ record s { current_key = some (slot (decode_b64 s.current_characters) key) }
  | none ↦ record s { ignore_encrypt_data = true }
]

unfoldable pub do_encrypted_cipher_value : Import → Import
do_encrypted_cipher_value s = set_key s (λ value key. record key { cipher_value = value })

unfoldable pub do_encrypted_key_id : Import → Import
do_encrypted_key_id s = set_key s (λ value key. record key { key_id = value })

unfoldable pub do_encrypted_key_packet : Import → Import
do_encrypted_key_packet s = set_key s (λ value key. record key { key_packet = value })

abbrev set_digest_alg : PropertyBag → Str → PropertyBag
set_digest_alg bag checksum_type = elim (Uris.checksum_alg_from_type checksum_type) [
  | none ↦ bag
  | some alg ↦ record bag { digest_alg = some alg }
]

abbrev set_digest : PropertyBag → Str → PropertyBag
set_digest bag checksum =
    if is_some bag.digest_alg then record bag { digest = some (decode_b64 checksum) } else bag

unfoldable pub do_encryption_data : Import → Assoc Str → Import
do_encryption_data s attrs =
    if s.ignore_encrypt_data then record s { derived_key_size = pos 0 } else record s {
      derived_key_size = pos 0;
      bag =
          set_digest (set_digest_alg s.bag (attr_or_empty Uris.attr_checksum_type attrs))
            (attr_or_empty Uris.attr_checksum attrs);
    }

unfoldable pub set_cipher : Import → Assoc Str → Cipher → Option ℤ → Import
set_cipher s attrs cipher implied = record s {
  derived_key_size = unwrap_or implied s.derived_key_size;
  bag = record s.bag {
    enc_alg = some cipher;
    iv = some (decode_b64 (attr_or_empty Uris.attr_iv attrs));
  };
}

unfoldable pub do_algorithm : Import → Assoc Str → Import
do_algorithm s attrs =
    if s.ignore_encrypt_data
    then s
    else elim (Uris.cipher_from_algorithm_name (attr_or_empty Uris.attr_algorithm_name attrs)) [
      | ok (cipher, implied) ↦ set_cipher s attrs cipher implied
      | err _ ↦ record s { ignore_encrypt_data = true }
    ]

-- It does not look at `ignore_encrypt_data`.
unfoldable pub do_start_key_alg : Import → Assoc Str → Import
do_start_key_alg s attrs =
    elim (Uris.start_key_from_name (attr_or_empty Uris.attr_start_key_name attrs)) [
      | ok alg ↦ record s { bag = record s.bag { start_key_alg = some alg } }
      | err _ ↦ record s { ignore_encrypt_data = true }
    ]

-- The OASIS attribute, else LibreOffice's experimental one.
unfoldable pub argon2_attr : Assoc Str → Str → Str → Str
argon2_attr attrs manifest loext = elim (get manifest attrs) [
  | some v ↦ v
  | none ↦ unwrap_or (get loext attrs) []
]

unfoldable pub set_argon2 : Import → ℤ → ℤ → ℤ → Import
set_argon2 s t m p =
    if is_positive t && is_positive m && is_positive p
    then record s { bag = record s.bag { argon2_args = some (t, m, p) } }
    else record s { ignore_encrypt_data = true }

-- The parameters of the function that the manifest names.
unfoldable pub set_kdf_params : Import → Assoc Str → KdfId → Import
set_kdf_params s attrs KdfId.argon2id =
    set_argon2 s (parse_i32 (argon2_attr attrs Uris.attr_argon2_t Uris.attr_argon2_t_lo))
      (parse_i32 (argon2_attr attrs Uris.attr_argon2_m Uris.attr_argon2_m_lo))
      (parse_i32 (argon2_attr attrs Uris.attr_argon2_p Uris.attr_argon2_p_lo))
set_kdf_params s attrs _ = record s {
  bag = record s.bag {
    iteration_count = some (parse_i32 (attr_or_empty Uris.attr_iteration_count attrs));
  };
}

-- `derived_key_size` after the `key-size` attribute: 16 where nothing has set it.
unfoldable pub key_size : ℤ → Option Str → ℤ
key_size current attr = elim (nonempty attr) [
  | some size ↦ parse_i32 size
  | none ↦ if is_zero current then pos 16 else current
]

unfoldable pub set_salt_and_size : Import → Assoc Str → Import
set_salt_and_size s attrs =
    let size = key_size s.derived_key_size (get Uris.attr_key_size attrs) in
    record s {
      derived_key_size = size;
      bag = record s.bag {
        salt = some (decode_b64 (attr_or_empty Uris.attr_salt attrs));
        derived_key_size = some size;
      };
    }

abbrev pub set_kdf : Import → KdfId → Import
set_kdf s kdf = record s { bag = record s.bag { kdf = some kdf } }

unfoldable pub do_key_derivation : Import → Assoc Str → Import
do_key_derivation s attrs =
    let name = attr_or_empty Uris.attr_key_derivation_name attrs in
    if s.ignore_encrypt_data then s else elim (Uris.password_kdf_from_name name) [
      | some kdf ↦ set_salt_and_size (set_kdf_params (set_kdf s kdf) attrs kdf) attrs
      | none ↦
          if s.pgp_encryption && str_eq name Uris.pgp_name
          then set_kdf s KdfId.pgp_rsa_oaep_mgf1p
          else record s { ignore_encrypt_data = true }
    ]
