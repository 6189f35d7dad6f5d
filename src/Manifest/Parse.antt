-- ===== src/Manifest/Parse.antt =====
-- src/manifest.rs: `parse_manifest`. The XML reader is a third-party crate: it is a parameter that
-- turns bytes into the events of this file, with names and keys already decoded by
-- `from_utf8_lossy`, and empty elements expanded to a start and an end.
pub mod Run
pub mod Malformed
pub mod Invariants
pub mod Nested
use odf_crypto.Prelude.{not, Option, none, some, List, [], ◌∷◌, Str, Bytes, if◌then◌else◌, is_empty}
use odf_crypto.Types.{PropertyBag}
use odf_crypto.Manifest.Entity.{expand_ref, normalize_attr_value}
use odf_crypto.Manifest.Import.{Import, new}
use odf_crypto.Manifest.Element.{start_element, end_element, characters}

-- An attribute: a syntax error of its own, or a key with a value that is UTF-8 or is not.
pub data RawAttr : Type 0 where
  bad_attr : RawAttr
  attr : Str → Option Str → RawAttr

-- `none` stands where `decode` fails. The end of the list is `Eof`; `other` is any event that the
-- loop passes over.
pub data XmlEvent : Type 0 where
  start : Str → List RawAttr → XmlEvent
  end : Str → XmlEvent
  text cdata general_ref : Option Str → XmlEvent
  syntax_error other : XmlEvent

unfoldable pub collect_attrs : List RawAttr → Option (List (Str × Str))
collect_attrs [] = some []
collect_attrs (bad_attr ∷ attrs) = none
collect_attrs (attr key none ∷ attrs) = none
collect_attrs (attr key (some raw) ∷ attrs) = elim (collect_attrs attrs) [
  | none ↦ none
  | some rest ↦ some ((key, normalize_attr_value raw) ∷ rest)
]

-- One event; `none` is the early `return Vec::new()`.
unfoldable pub on_event : Import → XmlEvent → Option Import
on_event s (start name attrs) = elim (collect_attrs attrs) [
  | none ↦ none
  | some raw_attrs ↦ some (start_element s name raw_attrs)
]
on_event s (end name) = some (end_element s name)
on_event s (text none) = none
on_event s (text (some t)) = some (characters s t)
on_event s (cdata none) = none
on_event s (cdata (some t)) = some (characters s t)
on_event s (general_ref none) = none
on_event s (general_ref (some name)) = some (characters s (expand_ref name))
on_event s syntax_error = none
on_event s other = some s

unfoldable pub parse_events : Import → List XmlEvent → List PropertyBag
parse_events s [] = if not (is_empty s.stack) then [] else s.bags
parse_events s (e ∷ events) = elim (on_event s e) [ none ↦ [] | some s' ↦ parse_events s' events ]

unfoldable pub parse_manifest : (Bytes → List XmlEvent) → Bytes → List PropertyBag
parse_manifest reader xml = parse_events new (reader xml)
