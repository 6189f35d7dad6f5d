-- ===== src/Tests/Decrypt.antt =====
-- src/decrypt.rs and src/decrypt_stream.rs on concrete input.
use odf_crypto.Prelude.{
  ◌≡◌, ◌↔◌, refl, arith, true, false, none, some, List, [], ◌∷◌, Bytes, Bool, codes, pos, ok, err,
  Result, is_ok, Refuses, zeros,
}
use odf_crypto.Types.{EntryEncryption, Classification, Mode, Kdf, sha1, aes_gcm_w3c}
use odf_crypto.BadParameter.Honest.{DecryptHonest}
use odf_crypto.Decrypt.Ceilings.{default_limits}
use odf_crypto.Decrypt.Errors.{DecryptError, wrong_password}
use odf_crypto.Decrypt.Shape.{screen_shape}
use odf_crypto.Decrypt.Shape.Exact.{FitsCipher, screen_shape-exact}
use odf_crypto.Decrypt.Keys.{find_key, derive_key}
use odf_crypto.Decrypt.Keys.Candidates.{candidates, IsFirstAccepted, find_key-first}
use odf_crypto.Decrypt.Keys.Honest.{derive_key-DecryptHonest}
use odf_crypto.Decrypt.Strip.{Attributes, Event, Xml, strip_manifest}
use odf_crypto.Decrypt.Strip.Nested.{
  AttrsKept, Nodes, Node, nodes_events, stripped, strip_manifest-stripped,
}
use odf_crypto.Decrypt.Slice.{new_slice, SeekFrom}
use odf_crypto.Decrypt.Slice.File.{Request, AgreeOn, slice_run, file_run, slice_run-AgreeOn}
use odf_crypto.Classify.Members.{ZipFile}
use odf_crypto.Tests.Samples.{gcm_entry, file}
use odf_crypto.Tests.Keys.{crypto}

abbrev iv : Bytes
iv = 1 ∷ 2 ∷ 3 ∷ 4 ∷ 5 ∷ 6 ∷ 7 ∷ 8 ∷ 9 ∷ 10 ∷ 11 ∷ 12 ∷ []

-- A row that AES-GCM can decrypt.
abbrev ready_entry : EntryEncryption
ready_entry = record gcm_entry { iv = iv }

screen_shape-exact_example :
    (is_ok (screen_shape ready_entry 40 iv) ≡ true) ↔ FitsCipher aes_gcm_w3c ready_entry 40 iv
screen_shape-exact_example = screen_shape-exact ready_entry 40 iv

abbrev an_encrypted_package : Classification
an_encrypted_package = record {
  mode = Mode.per_entry;
  package_encrypted = true;
  has_non_encrypted_entries = false;
  odf_version = some (codes "1.3");
  zip_has_encrypted_package = false;
  media_type = none;
  common = some ready_entry;
  encrypted_entries = ready_entry ∷ [];
  has_unexpected_streams = false;
  odf12_fatal = false;
  pgp_keys = [];
}

-- A row of the SHA-1 era, whose member takes every key but the empty one.
abbrev sha1_entry : EntryEncryption
sha1_entry = record gcm_entry {
  kdf = Kdf.pbkdf2 (pos 1024) (codes "salt");
  start_key = sha1;
  derived_key_len = pos 16;
}

abbrev takes_any : Bytes → Result DecryptError Bool
takes_any [] = ok false
takes_any (b ∷ key) = ok true

never_blames : (key : Bytes) → takes_any key ≡ err wrong_password → ⊥
never_blames [] h = cc
never_blames (b ∷ key) h = cc

find_key-first_example :
    (find_key crypto sha1_entry default_limits takes_any (codes "pw") ≡ ok (codes "key"))
    ↔ IsFirstAccepted crypto sha1_entry default_limits takes_any
        (candidates crypto sha1 (codes "pw"))
        (codes "key")
find_key-first_example =
    find_key-first crypto sha1_entry default_limits takes_any (codes "pw") (codes "key")

derive_key-DecryptHonest_example :
    Refuses DecryptHonest (derive_key crypto sha1_entry (codes "start key") default_limits)
derive_key-DecryptHonest_example =
    derive_key-DecryptHonest crypto (omega arith, omega arith) sha1_entry (codes "start key")
      default_limits

abbrev entry_nodes : Nodes
entry_nodes =
    Nodes.cons
      (Node.element (codes "file-entry") (some (codes "size", codes "7") ∷ [])
        (Nodes.cons (Node.childless (codes "encryption-data") []) Nodes.nil) (codes "file-entry"))
      Nodes.nil

abbrev xml : Xml
xml = record {
  local_name = λ name. name;
  from_utf8_lossy = λ name. name;
  read = λ document. nodes_events entry_nodes;
  write = written_names;
}
  where
    written_names : List Event → Bytes
    written_names [] = []
    written_names (e ∷ events) = 1 ∷ written_names events

strip_manifest-stripped_example :
    (kept : Bool → Attributes → Attributes) × AttrsKept kept
    × (strip_manifest xml (codes "<manifest/>")
        ≡ ok (xml.write (nodes_events (stripped xml kept entry_nodes))))
strip_manifest-stripped_example = strip_manifest-stripped xml (codes "<manifest/>") entry_nodes refl

-- A write behind a gap, then one at the start.
abbrev requests : List Request
requests =
    Request.seek_to (SeekFrom.start 3)
    ∷ Request.write_all (7 ∷ [])
    ∷ Request.seek_to (SeekFrom.start 0)
    ∷ Request.write_all (8 ∷ 9 ∷ [])
    ∷ []

slice_run-AgreeOn_example :
    AgreeOn
      (slice_run (new_slice (zeros 6)) requests)
      (file_run (record { content = []; position = 0; capacity = 6 }) requests)
slice_run-AgreeOn_example = slice_run-AgreeOn 6 (omega arith) requests

-- A member that two rows name.
abbrev gcm_member : ZipFile
gcm_member = record (file (codes "content.xml") iv) { uncompressed_size = 40 }
