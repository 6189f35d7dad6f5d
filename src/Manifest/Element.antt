-- ===== src/Manifest/Element.antt =====
-- src/manifest.rs: `start_element`, `end_element` and `characters`.
pub mod Handlers
pub mod Stack
pub mod Rows
use odf_crypto.Prelude.{
  ℕ, ◌+◌, ◌-◌, Bool, true, false, not, ◌&&◌, ◌||◌, Option, none, some, List, [], ◌∷◌, ◌++◌, Str,
  str_eq, ltb, leb, ◌==◌, if◌then◌else◌, length, is_empty, is_some, unwrap_or, Assoc, get,
}
use odf_crypto.Types.{PropertyBag, default_bag, default_key}
use odf_crypto.Uris
use odf_crypto.Manifest.Import.{
  Import, StackFrame, max_depth, convert_name, push_name_and_namespaces, parent_valid,
  invalidate_current,
}
use odf_crypto.Manifest.Fields.{
  nonempty, do_file_entry, do_encrypted_key, do_encryption_method, do_encrypted_cipher_value,
  do_encrypted_key_id, do_encrypted_key_packet, do_encryption_data, do_algorithm, do_start_key_alg,
  do_key_derivation,
}

abbrev pub clear_characters : Import → Import
clear_characters s = record s { current_characters = [] }

abbrev pub set_package_version : Import → Option Str → Import
set_package_version s none = s
set_package_version s (some v) = record s { package_version = some v }

unfoldable pub start_level_1 : Import → Str → Assoc Str → Import
start_level_1 s converted attrs =
    let s' = set_package_version s (nonempty (get Uris.attr_version attrs)) in
    if not (str_eq converted Uris.element_manifest) then invalidate_current s' else s'

unfoldable pub start_level_2 : Import → Str → Assoc Str → Import
start_level_2 s converted attrs =
    if str_eq converted Uris.element_file_entry
    then do_file_entry s attrs
    else if str_eq converted Uris.element_loext_keyinfo
        || str_eq converted Uris.element_manifest_encrypted_key
    then (if str_eq converted Uris.element_manifest_encrypted_key then do_encrypted_key s else s)
    else invalidate_current s

unfoldable pub start_level_3 : Import → Str → Assoc Str → Import
start_level_3 s converted attrs =
    if str_eq converted Uris.element_encryption_data
    then do_encryption_data s attrs
    else if str_eq converted Uris.element_loext_encrypted_key
    then do_encrypted_key s
    else if str_eq converted Uris.element_manifest_encryption_method
    then do_encryption_method s attrs Uris.attr_pgp_algorithm
    else if str_eq converted Uris.element_manifest_keyinfo
        || str_eq converted Uris.element_manifest_cipher_data
    then s
    else invalidate_current s

unfoldable pub start_level_4 : Import → Str → Assoc Str → Import
start_level_4 s converted attrs =
    if str_eq converted Uris.element_algorithm
    then do_algorithm s attrs
    else if str_eq converted Uris.element_key_derivation
    then do_key_derivation s attrs
    else if str_eq converted Uris.element_start_key_generation
    then do_start_key_alg s attrs
    else if str_eq converted Uris.element_loext_encryption_method
    then do_encryption_method s attrs Uris.attr_pgp_algorithm_lo
    else if str_eq converted Uris.element_loext_keyinfo_dsig
        || str_eq converted Uris.element_loext_cipher_data
        || str_eq converted Uris.element_manifest_pgp_data
    then s
    else if str_eq converted Uris.element_manifest_cipher_value
    then clear_characters s
    else invalidate_current s

unfoldable pub start_level_5 : Import → Str → Import
start_level_5 s converted =
    if str_eq converted Uris.element_loext_pgp_data
    then s
    else if str_eq converted Uris.element_loext_cipher_value
        || str_eq converted Uris.element_manifest_pgp_key_id
        || str_eq converted Uris.element_manifest_pgp_key_packet
    then clear_characters s
    else invalidate_current s

unfoldable pub start_level_6 : Import → Str → Import
start_level_6 s converted =
    if str_eq converted Uris.element_loext_pgp_key_id
      || str_eq converted Uris.element_loext_pgp_key_packet
    then clear_characters s
    else invalidate_current s

-- `match level`
unfoldable pub start_level : ℕ → Import → Str → Assoc Str → Import
start_level level s converted attrs =
    if level == 1
    then start_level_1 s converted attrs
    else if level == 2
    then start_level_2 s converted attrs
    else if level == 3
    then start_level_3 s converted attrs
    else if level == 4
    then start_level_4 s converted attrs
    else if level == 5
    then start_level_5 s converted
    else if level == 6
    then start_level_6 s converted
    else invalidate_current s

-- What `start_element` does with a frame pushed.
unfoldable pub start_pushed : Import → Str → Assoc Str → Import
start_pushed s converted attrs =
    let level = length s.stack in
    if leb 3 level && not (parent_valid s)
    then invalidate_current s
    else start_level level s converted attrs

unfoldable pub start_element : Import → Str → List (Str × Str) → Import
start_element s raw_name raw_attrs =
    if ltb 0 s.beyond_cap || leb max_depth (length s.stack)
    then record s { beyond_cap = s.beyond_cap + 1 }
    else let (s', converted, attrs) = push_name_and_namespaces s raw_name raw_attrs in
      start_pushed s' converted attrs

abbrev inherit_version : Import → PropertyBag
inherit_version s =
    if is_empty s.bags && is_some s.package_version && not (is_some s.bag.version)
    then record s.bag { version = s.package_version }
    else s.bag

abbrev attach_keys : Import → PropertyBag → PropertyBag
attach_keys s bag =
    if not s.ignore_encrypt_data && not (is_empty s.keys) && is_empty s.bags
    then record bag { key_info = some (record { keys = s.keys }) }
    else bag

unfoldable pub close_file_entry : Import → Import
close_file_entry s = record s {
  ignore_encrypt_data = false;
  bags = s.bags ++ attach_keys s (inherit_version s) ∷ [];
  bag = default_bag;
}

-- A key whose slot a nested element emptied is pushed as the zero-length key.
unfoldable pub close_encrypted_key : Import → Import
close_encrypted_key s =
    if s.ignore_encrypt_data then record s { current_key = none } else record s {
      keys = s.keys ++ unwrap_or s.current_key default_key ∷ [];
      pgp_encryption = true;
      current_key = none;
    }

unfoldable pub close_row : Str → Bool → Import → Import
close_row converted valid s =
    if str_eq converted Uris.element_file_entry && valid
    then close_file_entry s
    else if (str_eq converted Uris.element_loext_encrypted_key
          || str_eq converted Uris.element_manifest_encrypted_key)
        && valid
    then close_encrypted_key s
    else s

unfoldable pub close_slot : Str → ℕ → Import → Import
close_slot converted level s =
    if (str_eq converted Uris.element_manifest_cipher_value && level == 4)
      || (str_eq converted Uris.element_loext_cipher_value && level == 5)
    then do_encrypted_cipher_value s
    else if (str_eq converted Uris.element_manifest_pgp_key_id && level == 5)
        || (str_eq converted Uris.element_loext_pgp_key_id && level == 6)
    then do_encrypted_key_id s
    else if (str_eq converted Uris.element_manifest_pgp_key_packet && level == 5)
        || (str_eq converted Uris.element_loext_pgp_key_packet && level == 6)
    then do_encrypted_key_packet s
    else s

abbrev pub pop : List StackFrame → List StackFrame
pop [] = []
pop (f ∷ frames) = frames

abbrev pub pop_frame : Import → Import
pop_frame s = record s { stack = pop s.stack }

unfoldable pub end_open : List StackFrame → Import → Str → Import
end_open [] s converted = s
end_open (f ∷ frames) s converted =
    if not (str_eq f.converted_name converted)
    then s
    else pop_frame (close_slot converted (length s.stack) (close_row converted f.valid s))

unfoldable pub end_element : Import → Str → Import
end_element s raw_name =
    if ltb 0 s.beyond_cap
    then record s { beyond_cap = s.beyond_cap - 1 }
    else end_open s.stack s (convert_name s.stack raw_name)

unfoldable pub characters : Import → Str → Import
characters s text = record s { current_characters = s.current_characters ++ text }
