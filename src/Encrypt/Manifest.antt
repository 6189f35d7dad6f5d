-- ===== src/Encrypt/Manifest.antt =====
-- src/encrypt.rs: the manifest of the package that is written, as events; the XML writer is a
-- parameter.
pub mod Escape
pub mod Stable
pub mod Written
pub mod Row
pub mod Read
use odf_crypto.Prelude.{
  Option, none, some, List, [], ◌∷◌, ◌++◌, Str, Bytes, codes, decimal_text, to_string, ℤ, Result,
  map_err,
}
use odf_crypto.Uris
use odf_crypto.Manifest.Base64.{encode_b64}
use odf_crypto.Encrypt.Params.{Argon2Params, EncryptError, internal, wholesome}

abbrev pub Attrs : Type 0
Attrs = List (Str × Str)

-- `decl` carries the version and the encoding.
pub data WriterEvent : Type 0 where
  decl : Str → Str → WriterEvent
  start empty : Str → Attrs → WriterEvent
  end : Str → WriterEvent

-- The writer's bytes after the events, or the error's text.
abbrev pub Writer : Type 0
Writer = List WriterEvent → Result Str Bytes

abbrev pub root_attrs : Attrs
root_attrs =
    (codes "xmlns:manifest", Uris.manifest_ns_oasis)
    ∷ (codes "xmlns:loext", Uris.manifest_ns_loext)
    ∷ (Uris.attr_version, wholesome.odf_version)
    ∷ []

abbrev pub media_type_attr : Option Str → Attrs
media_type_attr none = []
media_type_attr (some mt) = (Uris.attr_media_type, mt) ∷ []

abbrev pub file_entry_attrs : Str → Option Str → Attrs
file_entry_attrs size media_type =
    (Uris.attr_full_path, codes "encrypted-package")
    ∷ (Uris.attr_size, size)
    ∷ media_type_attr media_type

abbrev pub algorithm_attrs : Str → Attrs
algorithm_attrs iv = (Uris.attr_algorithm_name, Uris.aesgcm256_url) ∷ (Uris.attr_iv, iv) ∷ []

abbrev pub key_size_text : Str
key_size_text = decimal_text wholesome.derived_key_len

abbrev pub start_key_attrs : Attrs
start_key_attrs =
    (Uris.attr_start_key_name, Uris.sha256_url) ∷ (Uris.attr_key_size, key_size_text) ∷ []

abbrev pub key_derivation_attrs : Str → Str → Str → Str → Attrs
key_derivation_attrs t m p salt =
    (Uris.attr_key_derivation_name, Uris.argon2id_url_lo)
    ∷ (Uris.attr_argon2_t_lo, t)
    ∷ (Uris.attr_argon2_m_lo, m)
    ∷ (Uris.attr_argon2_p_lo, p)
    ∷ (Uris.attr_salt, salt)
    ∷ (Uris.attr_key_size, key_size_text)
    ∷ []

-- The events, for the texts of the size, the vector, the salt and the costs.
unfoldable pub manifest_events : Str → Str → Str → Option Str → Str → Str → Str → List WriterEvent
manifest_events size iv salt media_type t m p =
    decl (codes "1.0") (codes "UTF-8")
    ∷ start Uris.element_manifest root_attrs
    ∷ start Uris.element_file_entry (file_entry_attrs size media_type)
    ∷ start Uris.element_encryption_data []
    ∷ empty Uris.element_algorithm (algorithm_attrs iv)
    ∷ empty Uris.element_start_key_generation start_key_attrs
    ∷ empty Uris.element_key_derivation (key_derivation_attrs t m p salt)
    ∷ end Uris.element_encryption_data
    ∷ end Uris.element_file_entry
    ∷ end Uris.element_manifest
    ∷ []

unfoldable pub build_manifest :
    Writer → ℤ → Bytes → Bytes → Option Str → Argon2Params → Result EncryptError Bytes
build_manifest writer size iv salt media_type params =
    map_err (λ error. internal (codes "manifest XML write: " ++ error))
      (writer (
        manifest_events (to_string size) (encode_b64 iv) (encode_b64 salt) media_type
          (to_string params.t) (to_string params.m_kib) (to_string params.p)))
