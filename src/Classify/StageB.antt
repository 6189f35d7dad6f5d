-- ===== src/Classify/StageB.antt =====
-- src/classify.rs: `stage_b`, the pass over the manifest rows and what it concludes.
pub mod Modes
pub mod Paths
use odf_crypto.Prelude.{
  Bool, true, false, not, ◌&&◌, ◌||◌, Option, none, some, List, [], ◌∷◌, ◌++◌, Str, codes, str_eq,
  str_ge, if◌then◌else◌, is_empty, unwrap_or, starts_with, Result, ok, err, ◌>>=◌,
}
use odf_crypto.Types.{
  PropertyBag, EntryEncryption, EncryptedKey, Classification, Mode, plain, per_entry, wholesome,
  DetectError, inconsistent,
}
use odf_crypto.Classify.Names.{short_name, elide}
use odf_crypto.Classify.Rows.{accept_row}
use odf_crypto.ZipTree.Node.{StreamAsFolder, Resolved, ResolvedKind, FolderMeta}
use odf_crypto.ZipTree.Insert.{FolderTree}
use odf_crypto.ZipTree.Resolve.{
  resolve, set_folder_meta, mark_from_manifest, root_meta, root_entry_media_type,
}
use odf_crypto.ZipTree.Unexpected.{has_unexpected_odf12_streams}

abbrev pub encrypted_package : Str
encrypted_package = codes "encrypted-package"

-- The locals of the loop over the rows.
pub record Scan : Type 0 where
  pub tree : FolderTree
  pub key_info : Bool
  pub pgp_keys : List EncryptedKey
  pub o_first_version : Option Str
  pub package_encrypted : Bool
  pub has_non_encrypted_entries : Bool
  pub common : Option EntryEncryption
  pub encrypted_entries : List EntryEncryption
  pub encrypted_package_complete : Bool

abbrev pub start_scan : FolderTree → Scan
start_scan tree = record {
  tree = tree;
  key_info = false;
  pgp_keys = [];
  o_first_version = none;
  package_encrypted = false;
  has_non_encrypted_entries = false;
  common = none;
  encrypted_entries = [];
  encrypted_package_complete = false;
}

unfoldable pub is_nonempty : Option Str → Bool
is_nonempty none = false
is_nonempty (some s) = not (is_empty s)

unfoldable pub version_ge_12 : Option Str → Bool
version_ge_12 none = false
version_ge_12 (some v) = str_ge v (codes "1.2")

abbrev first_version : Option Str → Option Str → Option Str
first_version (some v) version = some v
first_version none version = if is_nonempty version then version else none

-- What a row says of the package, whatever it names.
unfoldable pub note_bag : Scan → PropertyBag → Scan
unfolding is_nonempty
note_bag s bag =
    let version = first_version s.o_first_version bag.version in
    elim bag.key_info [
      | none ↦ record s { o_first_version = version }
      | some ki ↦ record s {
        o_first_version = version;
        key_info = true;
        pgp_keys = if is_empty s.pgp_keys then ki.keys else s.pgp_keys;
      }
    ]

-- `Some(entry)` of `accept_row`.
unfoldable pub add_entry : Scan → Str → EntryEncryption → Scan
add_entry s tree_path entry =
    let short = short_name entry.path in
    let is_common =
      not s.package_encrypted
      && (str_eq short (codes "content.xml") || str_eq short encrypted_package) in
    record s {
      encrypted_package_complete =
          if str_eq tree_path encrypted_package then true else s.encrypted_package_complete;
      package_encrypted = if is_common then true else s.package_encrypted;
      common = if is_common then some entry else s.common;
      encrypted_entries = s.encrypted_entries ++ entry ∷ [];
    }

-- A row that resolves to a stream.
unfoldable pub scan_stream : Scan → PropertyBag → Str → Scan
scan_stream s bag tree_path =
    let marked = record s { tree = mark_from_manifest s.tree tree_path bag.media_type } in
    elim (accept_row bag s.key_info tree_path) [
      | some entry ↦ add_entry marked tree_path entry
      | none ↦ record marked { has_non_encrypted_entries = true }
    ]

unfoldable pub scan_resolved : Scan → PropertyBag → ResolvedKind → Str → Scan
scan_resolved s bag ResolvedKind.folder tree_path = record s {
  tree = set_folder_meta s.tree tree_path bag.media_type bag.version;
}
scan_resolved s bag ResolvedKind.stream tree_path = scan_stream s bag tree_path

abbrev pub stream_as_folder_error : DetectError
stream_as_folder_error = inconsistent (codes "stream used as folder in manifest path")

-- The answer of `resolve` for the row, in the tree that it left.
unfoldable pub scan_found :
    Scan → PropertyBag → Result StreamAsFolder (Option Resolved) → Result DetectError Scan
scan_found s bag (err _) = err stream_as_folder_error
scan_found s bag (ok none) = ok s
scan_found s bag (ok (some r)) = ok (scan_resolved s bag r.kind r.tree_path)

-- One round of the loop.
unfoldable pub scan_bag : Scan → PropertyBag → Result DetectError Scan
scan_bag s bag =
    let noted = note_bag s bag in
    if is_empty bag.full_path
    then ok noted
    else let (tree, found) = resolve noted.tree bag.full_path in
      scan_found (record noted { tree = tree }) bag found

unfoldable pub scan_bags : Scan → List PropertyBag → Result DetectError Scan
scan_bags s [] = ok s
scan_bags s (bag ∷ bags) = elim (scan_bag s bag) [ err e ↦ err e | ok s' ↦ scan_bags s' bags ]

unfoldable pub mode_of : Bool → Scan → Mode
mode_of zip_has_encrypted_package s =
    if zip_has_encrypted_package && s.encrypted_package_complete
    then wholesome
    else if not (is_empty s.encrypted_entries)
    then per_entry
    else plain

-- The version that a `mimetype` file brings to a root with no media type.
abbrev root_version : FolderMeta → Option Str → Option Str
root_version meta first = if not (is_nonempty meta.version) then first else meta.version

abbrev xml_media_type : FolderTree → Bool → Str
xml_media_type tree zip_has_encrypted_package =
    if zip_has_encrypted_package
    then unwrap_or (root_entry_media_type tree encrypted_package) []
    else unwrap_or (root_meta tree).media_type []

-- `format!` of the conflict
unfoldable pub conflict : Str → Str → DetectError
conflict xml_mt mt = inconsistent (
    codes "mimetype conflicts with manifest.xml, \""
    ++ (elide xml_mt ++ (codes "\" vs. \"" ++ (elide mt ++ codes "\""))))

unfoldable pub check_mimetype :
    FolderTree → Bool → Option Str → Option Str → Result DetectError FolderTree
check_mimetype tree zip_has_encrypted_package first none = ok tree
check_mimetype tree zip_has_encrypted_package first (some mt) =
    if not (is_nonempty (root_meta tree).media_type)
    then ok (
        if starts_with mt (codes "application/vnd.")
        then set_folder_meta tree (b'/' ∷ []) (some mt) (root_version (root_meta tree) first)
        else tree)
    else if not (str_eq (xml_media_type tree zip_has_encrypted_package) mt)
    then err (conflict (xml_media_type tree zip_has_encrypted_package) mt)
    else ok tree

unfoldable pub conclude : Bool → Scan → FolderTree → Classification
conclude zip_has_encrypted_package s tree =
    let unexpected = has_unexpected_odf12_streams tree zip_has_encrypted_package in
    record {
      mode = mode_of zip_has_encrypted_package s;
      package_encrypted = s.package_encrypted;
      has_non_encrypted_entries = s.has_non_encrypted_entries;
      odf_version = (root_meta tree).version;
      zip_has_encrypted_package = zip_has_encrypted_package;
      media_type = (root_meta tree).media_type;
      common = s.common;
      encrypted_entries = s.encrypted_entries;
      has_unexpected_streams = unexpected;
      odf12_fatal = unexpected && version_ge_12 (root_meta tree).version;
      pgp_keys = s.pgp_keys;
    }

unfoldable pub stage_b :
    List PropertyBag → FolderTree → Bool → Option Str → Result DetectError Classification
stage_b bags tree zip_has_encrypted_package mimetype = do
  s ← scan_bags (start_scan tree) bags
  tree' ← check_mimetype s.tree zip_has_encrypted_package s.o_first_version mimetype
  ok (conclude zip_has_encrypted_package s tree')
