-- ===== src/Manifest/Import.antt =====
-- src/manifest.rs: `Import`, its stack of open elements, and the names they convert to. A stack is
-- the list of its frames, the top first.
use odf_crypto.Prelude.{
  ℕ, Bool, true, false, Option, none, some, List, [], ◌∷◌, ◌++◌, Str, codes, str_eq, if◌then◌else◌,
  is_empty, unwrap_or, Assoc, get, insert, split_once, strip_prefix, ℤ, pos,
}
use odf_crypto.Types.{PropertyBag, EncryptedKey, default_bag}
use odf_crypto.Uris.{is_manifest_namespace, manifest_prefix}

pub record StackFrame : Type 0 where
  pub converted_name : Str
  pub namespaces : Assoc Str
  pub valid : Bool

abbrev pub max_depth : ℕ
max_depth = 16

-- `usize` counters are plain numbers: they count events of one document.
pub record Import : Type 0 where
  pub stack : List StackFrame
  pub beyond_cap : ℕ
  pub bags : List PropertyBag
  pub bag : PropertyBag
  pub ignore_encrypt_data : Bool
  pub pgp_encryption : Bool
  pub derived_key_size : ℤ
  pub package_version : Option Str
  pub keys : List EncryptedKey
  pub current_key : Option EncryptedKey
  pub current_characters : Str

abbrev pub new : Import
new = record {
  stack = [];
  beyond_cap = 0;
  bags = [];
  bag = default_bag;
  ignore_encrypt_data = false;
  pgp_encryption = false;
  derived_key_size = pos 0;
  package_version = none;
  keys = [];
  current_key = none;
  current_characters = [];
}

-- The alias and the local name, as `find(':')` slices them.
unfoldable pub alias_of : Str → Str × Str
alias_of name = elim (split_once b':' name) [ none ↦ ([], name) | some parts ↦ parts ]

unfoldable pub convert_name_with_ns : Str → Assoc Str → Option Str
convert_name_with_ns name namespaces = elim (get (alias_of name).0 namespaces) [
  | none ↦ none
  | some uri ↦
      if is_manifest_namespace uri then some (manifest_prefix ++ (alias_of name).1) else none
]

-- The innermost frame that converts the name decides.
unfoldable pub convert_name : List StackFrame → Str → Str
convert_name [] name = name
convert_name (f ∷ frames) name =
    let outer = convert_name frames name in
    if is_empty f.namespaces
    then outer
    else elim (convert_name_with_ns name f.namespaces) [ some converted ↦ converted | none ↦ outer ]

-- The loop that separates namespace declarations from the other attributes.
unfoldable pub split_attrs :
    List (Str × Str) → Assoc Str → List (Str × Str) → Assoc Str × List (Str × Str)
split_attrs [] namespaces other = (namespaces, other)
split_attrs ((key, value) ∷ raw_attrs) namespaces other =
    if str_eq key (codes "xmlns")
    then split_attrs raw_attrs (insert [] value namespaces) other
    else elim (strip_prefix (codes "xmlns:") key) [
      | some prefix ↦ split_attrs raw_attrs (insert prefix value namespaces) other
      | none ↦ split_attrs raw_attrs namespaces (other ++ (key, value) ∷ [])
    ]

unfoldable pub convert_attrs : List StackFrame → List (Str × Str) → Assoc Str → Assoc Str
convert_attrs stack [] attrs = attrs
convert_attrs stack ((key, value) ∷ other) attrs =
    convert_attrs stack other (insert (convert_name stack key) value attrs)

abbrev pub converted_start : List StackFrame → Str → Assoc Str → Str
converted_start stack raw_name namespaces =
    unwrap_or (convert_name_with_ns raw_name namespaces) (convert_name stack raw_name)

abbrev pub push_frame : Import → Str → Assoc Str → Import
push_frame s raw_name namespaces = record s {
  stack =
      (record {
        converted_name = converted_start s.stack raw_name namespaces;
        namespaces = namespaces;
        valid = true;
      })
      ∷ s.stack;
}

-- The new state with the converted name and attributes.
unfoldable pub push_name_and_namespaces : Import → Str → List (Str × Str) → Import × Str × Assoc Str
push_name_and_namespaces s raw_name raw_attrs =
    let (namespaces, other) = split_attrs raw_attrs [] [] in
    let s' = push_frame s raw_name namespaces in
    (s', converted_start s.stack raw_name namespaces, convert_attrs s'.stack other [])

abbrev parent_of : List StackFrame → Bool
parent_of [] = true
parent_of (f ∷ []) = true
parent_of (f ∷ parent ∷ frames) = parent.valid

unfoldable pub parent_valid : Import → Bool
parent_valid s = parent_of s.stack

abbrev pub invalidate_top : List StackFrame → List StackFrame
invalidate_top [] = []
invalidate_top (f ∷ frames) = record f { valid = false } ∷ frames

unfoldable pub invalidate_current : Import → Import
invalidate_current s = record s { stack = invalidate_top s.stack }
