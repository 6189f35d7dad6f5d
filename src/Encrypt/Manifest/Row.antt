-- ===== src/Encrypt/Manifest/Row.antt =====
-- src/encrypt.rs, src/manifest.rs and src/classify.rs: the row that the written manifest makes.
use odf_crypto.Prelude.{
  ℕ, suc, true, Assoc, map, ◌++◌, Option, none, some, List, [], ◌∷◌, ◌≡◌, refl, ◌∙◌, Str, Bytes,
  codes, unwrap_or, str_eq, get, insert, split_once, strip_prefix, decimal_text, digits, ℤ, pos,
}
use odf_crypto.Types.{PropertyBag, default_bag, KdfId, aes_gcm_w3c, sha256}
use odf_crypto.Uris.{
  manifest_ns_ooo, manifest_ns_oasis, manifest_ns_loext, manifest_prefix, element_manifest,
  element_file_entry, element_encryption_data, element_algorithm, element_start_key_generation,
  element_key_derivation, element_loext_encrypted_key, element_loext_pgp_key_id,
  element_loext_pgp_key_packet, element_loext_cipher_value, element_manifest_encrypted_key,
  element_manifest_pgp_key_id, element_manifest_pgp_key_packet, element_manifest_cipher_value,
  attr_full_path, attr_version, attr_media_type, attr_size, attr_algorithm_name, attr_iv,
  attr_start_key_name, attr_key_size, attr_key_derivation_name, attr_salt, attr_argon2_t,
  attr_argon2_m, attr_argon2_p, attr_argon2_t_lo, attr_argon2_m_lo, attr_argon2_p_lo, sha256_url,
  sha1_1k_name, sha1_1k_url, sha256_1k_url, blowfish_name, blowfish_url, aesgcm256_url, pbkdf2_name,
  pbkdf2_url, argon2id_url, argon2id_url_lo, cipher_from_algorithm_name, start_key_from_name,
  checksum_alg_from_type, password_kdf_from_name, is_manifest_namespace,
}
use odf_crypto.Manifest.LoInt.{
  parse_i32, parse_i64, as_i32, parse_lo_int, parse_signed, parse_magnitude, digits_loop,
  skip_whitespace, lo_is_whitespace,
}
use odf_crypto.Manifest.Base64.{decode_b64}
use odf_crypto.Manifest.Element.{
  start_level_1, start_level_2, start_level_3, start_level_4, start_level, start_pushed,
  start_element, close_file_entry, close_row, close_slot, end_open, end_element,
}
use odf_crypto.Manifest.Fields.{
  do_file_entry, do_encryption_data, set_cipher, do_algorithm, do_start_key_alg, argon2_attr,
  set_argon2, set_kdf_params, key_size, set_salt_and_size, do_key_derivation,
}
use odf_crypto.Manifest.Import.{
  Import, StackFrame, new, alias_of, convert_name_with_ns, convert_name, split_attrs, convert_attrs,
  push_name_and_namespaces, parent_valid,
}
use odf_crypto.Manifest.Parse.Run.{result}
use odf_crypto.Encrypt.Params.{wholesome}
use odf_crypto.Encrypt.Manifest.{
  manifest_events, start, empty, end, algorithm_attrs, start_key_attrs, key_derivation_attrs,
  root_attrs, file_entry_attrs,
}
use odf_crypto.Encrypt.Manifest.Written.{import_events, import_event}

-- The bag of the row, for the size, the vector, the salt and the costs.
abbrev pub row_bag : ℕ → Bytes → Bytes → Option Str → ℕ → ℕ → ℕ → PropertyBag
row_bag size iv salt media_type t m p = record default_bag {
  full_path = codes "encrypted-package";
  media_type = some (unwrap_or media_type []);
  version = some wholesome.odf_version;
  size = some (pos size);
  salt = some salt;
  iv = some iv;
  derived_key_size = some (pos wholesome.derived_key_len);
  enc_alg = some aes_gcm_w3c;
  start_key_alg = some sha256;
  kdf = some KdfId.argon2id;
  argon2_args = some (pos t, pos m, pos p);
}

parse_key_size : parse_i32 (codes "32") ≡ pos 32
unfolding parse_i32 as_i32 parse_lo_int parse_signed parse_magnitude digits_loop skip_whitespace
    lo_is_whitespace
parse_key_size = refl

abbrev frame : Str → Assoc Str → StackFrame
frame name namespaces = record { converted_name = name; namespaces = namespaces; valid = true }

abbrev root_frame : StackFrame
root_frame =
    frame (codes "manifest:manifest")
      ((codes "loext", manifest_ns_loext) ∷ (codes "manifest", manifest_ns_oasis) ∷ [])

-- The importer with these elements open in the root, the innermost first.
abbrev inside : List Str → PropertyBag → ℤ → Import
inside names bag size = record new {
  stack = map (λ name. frame name []) names ++ root_frame ∷ [];
  bag = bag;
  package_version = some wholesome.odf_version;
  derived_key_size = size;
}

abbrev in_entry : List Str
in_entry = element_file_entry ∷ []

abbrev in_data : List Str
in_data = element_encryption_data ∷ element_file_entry ∷ []

module _ (size_text iv_text salt_text t_text m_text p_text : Str) (c : ℕ) where
  abbrev entry_bag : Option Str → PropertyBag
  entry_bag media_type = record default_bag {
    full_path = codes "encrypted-package";
    media_type = some (unwrap_or media_type []);
    size = some (parse_i64 (c ∷ size_text));
  }

  abbrev cipher_bag : PropertyBag → PropertyBag
  cipher_bag bag = record bag { enc_alg = some aes_gcm_w3c; iv = some (decode_b64 iv_text) }

  -- The bag when the row closes, for the costs that were read.
  abbrev costs_bag : PropertyBag → ℤ → ℤ → ℤ → PropertyBag
  costs_bag bag t m p = record bag {
    kdf = some KdfId.argon2id;
    argon2_args = some (t, m, p);
    salt = some (decode_b64 salt_text);
    derived_key_size = some (pos 32);
  }

  abbrev start_bag : Option Str → PropertyBag
  start_bag media_type = record (cipher_bag (entry_bag media_type)) { start_key_alg = some sha256 }

  -- Each event but that of the key derivation, in the state that the one before leaves.
  import_steps :
      (media_type : Option Str) (t m p : ℤ)
      → (import_event
            (import_event new (start element_manifest root_attrs))
            (start element_file_entry (file_entry_attrs (c ∷ size_text) media_type))
          ≡ inside in_entry (entry_bag media_type) (pos 0))
        × (import_event
              (inside in_entry (entry_bag media_type) (pos 0))
              (start element_encryption_data [])
            ≡ inside in_data (entry_bag media_type) (pos 0))
        × (import_event
              (inside in_data (entry_bag media_type) (pos 0))
              (empty element_algorithm (algorithm_attrs iv_text))
            ≡ inside in_data (cipher_bag (entry_bag media_type)) (pos 32))
        × (import_event
              (inside in_data (cipher_bag (entry_bag media_type)) (pos 32))
              (empty element_start_key_generation start_key_attrs)
            ≡ inside in_data (start_bag media_type) (pos 32))
        × (result (
              some (
                import_events (inside in_data (costs_bag (start_bag media_type) t m p) (pos 32)) (
                  end element_encryption_data
                  ∷ end element_file_entry
                  ∷ end element_manifest
                  ∷ [])))
            ≡ record (costs_bag (start_bag media_type) t m p) {
              version = some wholesome.odf_version;
            }
              ∷ [])
  unfolding start_level_1 start_level_2 start_level_3 start_level_4 start_level start_pushed
      start_element close_file_entry close_row close_slot end_open end_element do_file_entry
      do_encryption_data set_cipher do_algorithm do_start_key_alg alias_of convert_name_with_ns
      convert_name split_attrs convert_attrs push_name_and_namespaces parent_valid str_eq get insert
      split_once strip_prefix manifest_ns_ooo manifest_ns_oasis manifest_prefix element_manifest
      element_file_entry element_encryption_data element_algorithm element_start_key_generation
      element_key_derivation element_loext_encrypted_key element_loext_pgp_key_id
      element_loext_pgp_key_packet element_loext_cipher_value element_manifest_encrypted_key
      element_manifest_pgp_key_id element_manifest_pgp_key_packet element_manifest_cipher_value
      attr_full_path attr_version attr_media_type attr_size attr_algorithm_name attr_iv
      attr_start_key_name attr_key_size sha256_url sha1_1k_name sha1_1k_url sha256_1k_url
      blowfish_name blowfish_url aesgcm256_url cipher_from_algorithm_name start_key_from_name
      checksum_alg_from_type is_manifest_namespace
  import_steps none t m p = (refl, refl, refl, refl, refl)
  import_steps (some mt) t m p = (refl, refl, refl, refl, refl)

  module _ (t m p : ℕ) (parse_t : parse_i32 t_text ≡ pos (suc t))
      (parse_m : parse_i32 m_text ≡ pos (suc m)) (parse_p : parse_i32 p_text ≡ pos (suc p)) where
    import-costs :
        (bag : PropertyBag)
        → import_event
            (inside in_data bag (pos 32))
            (empty element_key_derivation (key_derivation_attrs t_text m_text p_text salt_text))
          ≡ inside in_data (costs_bag bag (pos (suc t)) (pos (suc m)) (pos (suc p))) (pos 32)
    unfolding start_level_4 start_level start_pushed start_element close_row close_slot end_open
        end_element argon2_attr set_argon2 set_kdf_params key_size set_salt_and_size
        do_key_derivation alias_of convert_name_with_ns convert_name split_attrs convert_attrs
        push_name_and_namespaces parent_valid str_eq get insert split_once strip_prefix decimal_text
        digits manifest_ns_ooo manifest_ns_oasis manifest_ns_loext manifest_prefix
        element_file_entry element_algorithm element_key_derivation element_loext_encrypted_key
        element_loext_pgp_key_id element_loext_pgp_key_packet element_loext_cipher_value
        element_manifest_encrypted_key element_manifest_pgp_key_id element_manifest_pgp_key_packet
        element_manifest_cipher_value attr_key_size attr_key_derivation_name attr_salt attr_argon2_t
        attr_argon2_m attr_argon2_p attr_argon2_t_lo attr_argon2_m_lo attr_argon2_p_lo pbkdf2_name
        pbkdf2_url argon2id_url argon2id_url_lo password_kdf_from_name is_manifest_namespace
    import-costs bag = rw (parse_key_size, parse_t, parse_m, parse_p) refl

    -- The importer reads the written manifest as its one row.
    pub import-manifest_events :
        (media_type : Option Str) (size : ℕ)
        → parse_i64 (c ∷ size_text) ≡ pos size
        → result (
            some (
              import_events new (
                manifest_events (c ∷ size_text) iv_text salt_text media_type t_text m_text p_text)))
          ≡ row_bag size
              (decode_b64 iv_text)
              (decode_b64 salt_text)
              media_type
              (suc t)
              (suc m)
              (suc p)
            ∷ []
    unfolding manifest_events
    import-manifest_events media_type size parse_size =
        let (e1, e2, e3, e4, e5) =
          import_steps media_type (pos (suc t)) (pos (suc m)) (pos (suc p)) in
        rw (e1, e2, e3, e4, import-costs (start_bag media_type)) (e5 ∙ rw parse_size refl)
