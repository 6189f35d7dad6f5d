-- ===== src/Classify/Package.antt =====
-- src/classify.rs: the whole of `classify`, over an archive that the zip crate has opened.
pub mod Descriptors
pub mod Whole
use odf_crypto.Prelude.{
  Bool, not, ◌&&◌, Option, none, some, List, [], ◌∷◌, map, Str, Bytes, codes, str_eq, if◌then◌else◌,
  any, find, Result, ok, err, ◌>>=◌, ◌>>◌, map_err,
}
use odf_crypto.Types.{
  Classification, EntryEncryption, DetectError, not_zip, missing_manifest, zip, io, is_wholesome,
}
use odf_crypto.Manifest.Parse.{XmlEvent, parse_manifest}
use odf_crypto.Classify.Names.{collapse_slashes}
use odf_crypto.Classify.Members.{
  Archive, ZipMember, collect_members, read_named_member, read_mimetype,
}
use odf_crypto.Classify.StageB.{stage_b, encrypted_package}
use odf_crypto.ZipTree.Insert.{FolderTree, from_zip_names}
use odf_crypto.ZipTree.Resolve.{root_has_entry}

abbrev pub is_encrypted_path : List EntryEncryption → Str → Bool
is_encrypted_path entries name = any (λ e. str_eq e.path name) entries

abbrev pub descriptor_error : DetectError
descriptor_error = zip (codes "entry STORED with data descriptor but not encrypted")

-- The member that makes the check fail.
unfoldable pub is_bad_descriptor : List EntryEncryption → ZipMember → Bool
is_bad_descriptor entries member =
    member.stored
    && member.data_descriptor
    && not (is_encrypted_path entries member.name)
    && not (is_encrypted_path entries (collapse_slashes member.name))

unfoldable pub check_stored_data_descriptors :
    List ZipMember → Classification → Result DetectError Unit
check_stored_data_descriptors [] class = ok tt
check_stored_data_descriptors (member ∷ members) class =
    let rest = check_stored_data_descriptors members class in
    if is_bad_descriptor class.encrypted_entries member then err descriptor_error else rest

-- The members' names as a tree, with the error that `classify` makes of a collision.
abbrev pub open_tree : List ZipMember → Result DetectError FolderTree
open_tree members =
    map_err (λ _. zip (codes "Bad Zip File, stream as folder"))
      (from_zip_names (map (λ m. m.name) members))

abbrev pub require_manifest : Option Bytes → Result DetectError Bytes
require_manifest none = err missing_manifest
require_manifest (some xml) = ok xml

module _ (from_utf8_lossy : Bytes → Str) (reader : Bytes → List XmlEvent) where
  unfoldable pub classify_archive : Archive → Result DetectError Classification
  classify_archive archive = do
    members ← collect_members from_utf8_lossy archive
    tree ← open_tree members
    let zip_has_encrypted_package = root_has_entry tree encrypted_package
    found ← read_named_member archive members (codes "META-INF/manifest.xml")
    manifest_xml ← require_manifest found
    mimetype ← read_mimetype from_utf8_lossy archive members tree
    class ← stage_b (parse_manifest reader manifest_xml) tree zip_has_encrypted_package mimetype
    check_stored_data_descriptors members class
    ok class

  -- `none` where `open_archive` fails.
  unfoldable pub classify_latched : Option Archive → Result DetectError Classification
  classify_latched none = err not_zip
  classify_latched (some archive) = classify_archive archive

  -- The latch holds the first error of the caller's reader, which comes before any other answer.
  unfoldable pub classify_reader : Option Str → Option Archive → Result DetectError Classification
  classify_reader (some error) opened = err (io error)
  classify_reader none opened = classify_latched opened

-- `Classification::wholesome_row`
unfoldable pub wholesome_row : Classification → Option EntryEncryption
wholesome_row class =
    if not (is_wholesome class.mode)
    then none
    else find (λ e. str_eq e.path encrypted_package) class.encrypted_entries
