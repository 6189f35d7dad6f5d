-- ===== src/Encrypt/Detected.antt =====
-- src/encrypt.rs, src/encrypt_stream.rs and src/classify.rs: the package that is written, as
-- detection sees it. The zip crate is a parameter, as what reading the archive gives.
use odf_crypto.Prelude.{
  ℕ, suc, ◌+◌, ◌^◌, ◌≤◌, ◌<◌, true, false, Option, none, some, List, [], ◌∷◌, ◌≡◌, refl, sym, subst,
  arith, Str, Bytes, codes, if◌then◌else◌, All, Bool-cases, inl, inr, length, pos, starts_with,
  unwrap_or, ok, str_eq, split, ends_with, rsplit_once, contains_key, insert, remove, get, find,
  any, to_ascii_lowercase,
}
use odf_crypto.Types.{Classification, EntryEncryption, Mode, Kdf, aes_gcm_w3c, sha256, no_checksum}
use odf_crypto.Classify.Names.{
  is_valid_zip_entry_file_name, name_from, name_char, is_forbidden, short_name, member_matches_path,
  collapse_slashes, collapse_from,
}
use odf_crypto.ZipTree.Resolve.{
  root_has_entry, root_has_stream, resolve, root_meta, mark_from_manifest, set_folder_meta,
}
use odf_crypto.ZipTree.Unexpected.{
  has_unexpected_odf12_streams, look_unexpected, unexpected_stream, unexpected_folder,
}
use odf_crypto.Classify.Rows.{
  checksum_present_or_unneeded, checksum_of, password_kdf, password_entry, accept_row,
}
use odf_crypto.Classify.StageB.{
  stage_b, scan_bags, scan_bag, scan_found, note_bag, check_mimetype, conclude, mode_of,
  scan_resolved, scan_stream, add_entry, version_ge_12,
}
use odf_crypto.Classify.Members.{
  ZipFile, Archive, ZipMember, is_folder_entry, collect_members, collect_from, check_name,
  manifest_read_cap, mimetype_ceiling, read_capped, read_head, read_named_member, read_mimetype,
}
use odf_crypto.ZipTree.Node.{
  node, TreeNode, nil, cons, get_child, put_child, nonempty_parts, mark_at, set_meta_at,
}
use odf_crypto.ZipTree.Insert.{
  FolderTree, from_zip_names, insert_names, insert_path, insert_at, member_parts, leading_parts,
  seed_recent, walk_containing_folder, containing_folder,
}
use odf_crypto.Encrypt.Params.{wholesome}
use odf_crypto.Encrypt.Manifest.{Writer, build_manifest}
use odf_crypto.Encrypt.Manifest.Escape.{IsStable}
use odf_crypto.Encrypt.Manifest.Read.{ReadsBack, costs, parse_manifest-build_manifest}
use odf_crypto.Encrypt.Manifest.Row.{row_bag}
use odf_crypto.Manifest.Parse.{XmlEvent}
use odf_crypto.Manifest.Base64.RoundTrip.{IsByte}
use odf_crypto.Classify.Package.{
  classify_archive, open_tree, check_stored_data_descriptors, is_bad_descriptor,
}

-- The row that the package has.
abbrev pub written_row : ℕ → Bytes → Bytes → ℕ → ℕ → ℕ → EntryEncryption
written_row size iv salt t m p = record {
  path = codes "encrypted-package";
  cipher = aes_gcm_w3c;
  kdf = Kdf.argon2id (pos t) (pos m) (pos p) salt;
  start_key = sha256;
  checksum = no_checksum;
  size = pos size;
  iv = iv;
  derived_key_len = pos wholesome.derived_key_len;
}

abbrev names : List Str
names = codes "mimetype" ∷ codes "encrypted-package" ∷ codes "META-INF/manifest.xml" ∷ []

-- What the zip crate documents of a file that it wrote to a seekable writer.
pub record IsWritten (from_utf8_lossy : Bytes → Str) (file : ZipFile) (name : Str) : Type 0 where
  pub name_is : from_utf8_lossy file.name_raw ≡ name
  pub no_folder : is_folder_entry file ≡ false
  pub no_descriptor : file.using_data_descriptor ≡ false

abbrev named : ℕ → ZipFile → Str → ZipMember
named i f name = record {
  name = name;
  index = i;
  stored = f.is_stored;
  data_descriptor = f.using_data_descriptor;
}

collect_from-file :
    (from_utf8_lossy : Bytes → Str) (i : ℕ) (seen seen_lower : List Str) (f : ZipFile)
    (rest : Archive) (name : Str) (members : List ZipMember)
    → IsWritten from_utf8_lossy f name
    → check_name name seen seen_lower ≡ ok tt
    → collect_from from_utf8_lossy (i + 1) (name ∷ seen) (to_ascii_lowercase name ∷ seen_lower) rest
      ≡ ok members
    → collect_from from_utf8_lossy i seen seen_lower (ok f ∷ rest) ≡ ok (named i f name ∷ members)
unfolding collect_from
collect_from-file from_utf8_lossy i seen seen_lower f rest name members written good more =
    let good' : check_name (from_utf8_lossy f.name_raw) seen seen_lower ≡ ok tt =
      subst (λ n. check_name n seen seen_lower ≡ ok tt) (sym written.name_is) good in
    let more' : collect_from from_utf8_lossy (i + 1) (from_utf8_lossy f.name_raw ∷ seen)
          (to_ascii_lowercase (from_utf8_lossy f.name_raw) ∷ seen_lower) rest
        ≡ ok members =
      subst
        (λ n.
          collect_from from_utf8_lossy (i + 1) (n ∷ seen) (to_ascii_lowercase n ∷ seen_lower) rest
          ≡ ok members)
        (sym written.name_is) more in
    rw (collect_from, written.no_folder, good', more', written.name_is) refl

abbrev leaf : TreeNode
leaf = TreeNode.stream false none

-- The tree of the three names.
abbrev tree : FolderTree
tree = record {
  root =
      node (record { media_type = none; version = none })
        (cons (codes "mimetype") leaf (
          cons (codes "encrypted-package") leaf (
            cons (codes "META-INF")
              (TreeNode.folder (
                node (record { media_type = none; version = none })
                  (cons (codes "manifest.xml") leaf nil)))
              nil)));
  recent = (codes "META-INF", codes "META-INF" ∷ []) ∷ [];
}

from_zip_names-names : from_zip_names names ≡ ok tree
unfolding from_zip_names insert_names insert_path insert_at member_parts leading_parts seed_recent
    walk_containing_folder containing_folder split ends_with rsplit_once get_child put_child str_eq
    contains_key insert remove get
from_zip_names-names = refl

-- The classification of the package, for the text that its `mimetype` member holds.
abbrev pub written_class : EntryEncryption → Str → Classification
written_class row mt = record {
  mode = Mode.wholesome;
  package_encrypted = true;
  has_non_encrypted_entries = false;
  odf_version =
      if starts_with mt (codes "application/vnd.") then some wholesome.odf_version else none;
  zip_has_encrypted_package = true;
  media_type = if starts_with mt (codes "application/vnd.") then some mt else none;
  common = some row;
  encrypted_entries = row ∷ [];
  has_unexpected_streams = false;
  odf12_fatal = false;
  pgp_keys = [];
}

stage_b-row :
    (size t m p : ℕ) (iv salt : Bytes) (media_type : Option Str) (mt : Str)
    → stage_b (row_bag size iv salt media_type t m p ∷ []) tree true (some mt)
      ≡ ok (written_class (written_row size iv salt t m p) mt)
unfolding stage_b scan_bags scan_bag scan_found resolve str_eq rsplit_once get_child note_bag
    check_mimetype conclude mode_of scan_resolved root_meta has_unexpected_odf12_streams scan_stream
    look_unexpected accept_row password_entry password_kdf checksum_present_or_unneeded add_entry
    short_name checksum_of mark_from_manifest mark_at nonempty_parts split put_child
    unexpected_stream version_ge_12 set_folder_meta set_meta_at unexpected_folder
stage_b-row size t m p iv salt media_type mt =
    elim (Bool-cases (starts_with mt (codes "application/vnd."))) [
      | inl h ↦ rw h refl
      | inr h ↦ rw h refl
    ]

module _ (from_utf8_lossy : Bytes → Str) (m e x : ZipFile)
    (m_written : IsWritten from_utf8_lossy m (codes "mimetype"))
    (e_written : IsWritten from_utf8_lossy e (codes "encrypted-package"))
    (x_written : IsWritten from_utf8_lossy x (codes "META-INF/manifest.xml")) where
  abbrev archive : Archive
  archive = ok m ∷ ok e ∷ ok x ∷ []

  abbrev members : List ZipMember
  members =
      named 0 m (codes "mimetype")
      ∷ named 1 e (codes "encrypted-package")
      ∷ named 2 x (codes "META-INF/manifest.xml")
      ∷ []

  collect_members-archive : collect_members from_utf8_lossy archive ≡ ok members
  unfolding collect_members collect_from check_name is_valid_zip_entry_file_name name_from name_char
      is_forbidden any str_eq to_ascii_lowercase
  collect_members-archive =
      let is_mimetype = codes "mimetype" in
      let is_package = codes "encrypted-package" in
      collect_from-file from_utf8_lossy 0 [] [] m (ok e ∷ ok x ∷ []) is_mimetype _ m_written refl (
        collect_from-file from_utf8_lossy 1 (is_mimetype ∷ []) (to_ascii_lowercase is_mimetype ∷ [])
          e (ok x ∷ []) is_package _ e_written refl
          (collect_from-file from_utf8_lossy 2 (is_package ∷ is_mimetype ∷ [])
            (to_ascii_lowercase is_package ∷ to_ascii_lowercase is_mimetype ∷ []) x []
            (codes "META-INF/manifest.xml") _ x_written refl refl))

  read_named_member-manifest :
      (xml : Bytes)
      → x.read_to_end (manifest_read_cap + 1) ≡ ok xml
      → length xml ≤ manifest_read_cap
      → read_named_member archive members (codes "META-INF/manifest.xml") ≡ ok (some xml)
  unfolding read_named_member read_capped find member_matches_path collapse_slashes collapse_from
      str_eq
  read_named_member-manifest xml holds fits = rw holds (ground arith)

  read_mimetype-archive :
      (buf : Bytes)
      → m.read mimetype_ceiling ≡ ok buf
      → read_mimetype from_utf8_lossy archive members tree ≡ ok (some (from_utf8_lossy buf))
  unfolding read_mimetype root_has_entry root_has_stream get_child str_eq find read_head
  read_mimetype-archive buf holds = rw holds refl

  open_tree-members : open_tree members ≡ ok tree
  open_tree-members = rw from_zip_names-names refl

  check-members :
      (row : EntryEncryption) (mt : Str)
      → str_eq row.path (codes "encrypted-package") ≡ true
      → check_stored_data_descriptors members (written_class row mt) ≡ ok tt
  unfolding check_stored_data_descriptors is_bad_descriptor
  check-members row mt h =
      rw (m_written.no_descriptor, e_written.no_descriptor, x_written.no_descriptor) (ground arith)

  -- The package that `encrypt` writes is detected as a wholesome one with one row, which has the
  -- size, the vector, the salt and the costs that it was written with, and nothing that LibreOffice
  -- refuses; it is assumed that the XML reader gives back what the writer was given, that the zip
  -- crate gives back the members, with a manifest of at most 8 MiB, that the size and the costs are
  -- in the range of their fields, and that the media type has no tab or line end.
  pub classify_archive-written :
      (reader : Bytes → List XmlEvent) (writer : Writer)
      → ReadsBack reader writer
      → (size t p_m p_p : ℕ) (iv salt xml buf : Bytes) (media_type : Option Str) → size < 2 ^ 63
      → suc t < 2 ^ 31
      → suc p_m < 2 ^ 31
      → suc p_p < 2 ^ 31
      → All IsByte iv
      → All IsByte salt
      → All IsStable (unwrap_or media_type [])
      → build_manifest writer (pos size) iv salt media_type (costs (suc t) (suc p_m) (suc p_p))
        ≡ ok xml
      → length xml ≤ manifest_read_cap
      → x.read_to_end (manifest_read_cap + 1) ≡ ok xml
      → m.read mimetype_ceiling ≡ ok buf
      → classify_archive from_utf8_lossy reader archive
        ≡ ok (
            written_class
              (written_row size iv salt (suc t) (suc p_m) (suc p_p))
              (from_utf8_lossy buf))
  unfolding classify_archive root_has_entry get_child str_eq
  classify_archive-written reader writer reads size t p_m p_p iv salt xml buf media_type hs ht hm hp
        hi hl stable wrote small holds_xml holds_buf =
      rw
        (
          collect_members-archive,
          open_tree-members,
          read_named_member-manifest xml holds_xml small,
          read_mimetype-archive buf holds_buf,
          parse_manifest-build_manifest reader writer reads size t p_m p_p iv salt xml media_type hs
              ht hm hp hi hl stable wrote,
          stage_b-row size (suc t) (suc p_m) (suc p_p) iv salt media_type (from_utf8_lossy buf),
          check-members (written_row size iv salt (suc t) (suc p_m) (suc p_p)) (from_utf8_lossy buf)
              refl,
        )
        refl
