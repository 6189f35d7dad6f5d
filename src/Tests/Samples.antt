-- ===== src/Tests/Samples.antt =====
-- A manifest with one encrypted row, as events and as the row that it makes; its archive.
use odf_crypto.Prelude.{true, false, none, some, List, [], ◌∷◌, Str, Bytes, codes, ok, pos}
use odf_crypto.Types.{
  PropertyBag, EntryEncryption, default_bag, KdfId, Kdf, aes_gcm_w3c, sha256, no_checksum,
}
use odf_crypto.Manifest.Parse.{XmlEvent, RawAttr, attr, start, end}
use odf_crypto.Classify.Members.{ZipFile, Archive}
use odf_crypto.ZipTree.Node.{FolderNode, node, TreeNode, nil, cons}
use odf_crypto.ZipTree.Insert.{FolderTree}

abbrev pub manifest_name : Str
manifest_name = codes "manifest:manifest"

abbrev pub entry_name : Str
entry_name = codes "manifest:file-entry"

abbrev pub manifest_attrs : List RawAttr
manifest_attrs =
    attr (codes "xmlns:manifest")
      (some (codes "urn:oasis:names:tc:opendocument:xmlns:manifest:1.0"))
    ∷ attr (codes "manifest:version") (some (codes "1.3"))
    ∷ []

abbrev pub entry_attrs : List RawAttr
entry_attrs =
    attr (codes "manifest:full-path") (some (codes "a&amp;b.xml"))
    ∷ attr (codes "manifest:size") (some (codes " 12"))
    ∷ []

abbrev pub entry_events : List XmlEvent
entry_events = start entry_name entry_attrs ∷ end entry_name ∷ []

abbrev pub document : List XmlEvent
document =
    start manifest_name manifest_attrs
    ∷ start entry_name entry_attrs
    ∷ end entry_name
    ∷ end manifest_name
    ∷ []

abbrev pub reader : Bytes → List XmlEvent
reader xml = document

-- A complete row, with AES-GCM and Argon2.
abbrev pub gcm_row : PropertyBag
gcm_row = record default_bag {
  full_path = codes "content.xml";
  size = some (pos 7);
  salt = some (1 ∷ 2 ∷ []);
  iv = some (3 ∷ []);
  enc_alg = some aes_gcm_w3c;
  start_key_alg = some sha256;
  kdf = some KdfId.argon2id;
  derived_key_size = some (pos 32);
  argon2_args = some (pos 3, pos 65536, pos 4);
}

abbrev pub gcm_entry : EntryEncryption
gcm_entry = record {
  path = codes "content.xml";
  cipher = aes_gcm_w3c;
  kdf = Kdf.argon2id (pos 3) (pos 65536) (pos 4) (1 ∷ 2 ∷ []);
  start_key = sha256;
  checksum = no_checksum;
  size = pos 7;
  iv = 3 ∷ [];
  derived_key_len = pos 32;
}

abbrev pub content_tree : FolderTree
content_tree = record {
  root =
      node (record { media_type = none; version = none })
        (cons (codes "content.xml") (TreeNode.stream false none) nil);
  recent = [];
}

abbrev pub pictures : Str
pictures = codes "Pictures"

abbrev pub pictures_root : FolderNode
pictures_root =
    node (record { media_type = none; version = none })
      (cons pictures
        (TreeNode.folder (
          node (record { media_type = none; version = none })
            (cons (codes "a.png") (TreeNode.stream false none) nil)))
        nil)

-- A tree with one folder, which is cached.
abbrev pub pictures_tree : FolderTree
pictures_tree = record { root = pictures_root; recent = (pictures, pictures ∷ []) ∷ [] }

abbrev pub file : Str → Bytes → ZipFile
file name body = record {
  name_raw = name;
  uncompressed_size = 9;
  system = 3;
  external_attributes = 0;
  is_stored = true;
  using_data_descriptor = false;
  read_to_end = λ _. ok body;
  read = λ _. ok body;
}

abbrev pub archive : Archive
archive =
    ok (file (codes "mimetype") (codes "application/vnd.oasis.opendocument.text"))
    ∷ ok (file (codes "META-INF/manifest.xml") [])
    ∷ []
