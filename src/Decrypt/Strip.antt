-- ===== src/Decrypt/Strip.antt =====
-- src/decrypt.rs: the manifest without its `encryption-data`. The XML reader and writer, the local
-- part of a name and `String::from_utf8_lossy` are parameters: a document is its events, with empty
-- elements as they stand, and names and attributes as bytes.
pub mod Nested
use odf_crypto.Prelude.{
  ℕ, zero, suc, ◌+◌, Bool, true, false, ◌||◌, ◌&&◌, Option, none, some, List, [], ◌∷◌, ◌++◌, Str,
  Bytes, codes, str_eq, if◌then◌else◌, has_suffix, Result, ok, err, ◌>>=◌, map_err,
}
use odf_crypto.Decrypt.Errors.{DecryptError, zip}

-- `none` is an attribute that does not parse.
abbrev pub Attributes : Type 0
Attributes = List (Option (Bytes × Bytes))

-- `other` is any event but an element's; `read_error` carries the reader's message.
pub data Event : Type 0 where
  start empty : Bytes → Attributes → Event
  end other : Bytes → Event
  read_error : Str → Event

unfoldable pub is_manifest_size_attr : Bytes → Bool
is_manifest_size_attr key = has_suffix (codes ":size") key || str_eq key (codes "size")

-- The loop over the attributes.
unfoldable pub kept_attrs : Bool → Attributes → Attributes
kept_attrs strip_size [] = []
kept_attrs strip_size (none ∷ attrs) = kept_attrs strip_size attrs
kept_attrs strip_size (some (key, value) ∷ attrs) =
    let rest = kept_attrs strip_size attrs in
    if strip_size && is_manifest_size_attr key then rest else some (key, value) ∷ rest

pub record Xml : Type 0 where
  pub local_name : Bytes → Bytes
  pub from_utf8_lossy : Bytes → Bytes
  pub read : Bytes → List Event
  pub write : List Event → Bytes

pub record Rewrite : Type 0 where
  pub skip_depth : ℕ
  pub written : List Event

module _ (xml : Xml) where
  -- `without_size`: the name and the attributes of the new tag.
  unfoldable pub lossy_name : Bytes → Bytes
  lossy_name name = xml.from_utf8_lossy name

  unfoldable pub without_size : Bytes → Attributes → Attributes
  without_size name attrs = kept_attrs (str_eq (xml.local_name name) (codes "file-entry")) attrs

  abbrev pub is_encryption_data : Bytes → Bool
  is_encryption_data name = str_eq (xml.local_name name) (codes "encryption-data")

  -- `write_event`, while nothing is skipped
  abbrev pub write_event : Rewrite → Event → Rewrite
  write_event s e = record s { written = s.written ++ e ∷ [] }

  -- One event, by the depth inside what is skipped.
  unfoldable pub rewrite_event : ℕ → Rewrite → Event → Result DecryptError Rewrite
  rewrite_event zero s (start name attrs) = ok (
      if is_encryption_data name
      then record s { skip_depth = 1 }
      else write_event s (start (lossy_name name) (without_size name attrs)))
  rewrite_event (suc d) s (start name attrs) = ok (record s { skip_depth = suc d + 1 })
  rewrite_event zero s (end name) = ok (write_event s (end name))
  rewrite_event (suc d) s (end name) = ok (record s { skip_depth = d })
  rewrite_event zero s (empty name attrs) = ok (
      if is_encryption_data name
      then s
      else write_event s (empty (lossy_name name) (without_size name attrs)))
  rewrite_event (suc d) s (empty name attrs) = ok s
  rewrite_event zero s (other bytes) = ok (write_event s (other bytes))
  rewrite_event (suc d) s (other bytes) = ok s
  rewrite_event d s (read_error message) = err (zip message)

  unfoldable pub rewrite_events : Rewrite → List Event → Result DecryptError Rewrite
  rewrite_events s [] = ok s
  rewrite_events s (e ∷ events) = do
    next ← rewrite_event s.skip_depth s e
    rewrite_events next events

  unfoldable pub strip_manifest : Bytes → Result DecryptError Bytes
  strip_manifest document = do
    last ← rewrite_events (record { skip_depth = 0; written = [] }) (xml.read document)
    ok (xml.write last.written)
