-- ===== src/ZipTree/Insert.antt =====
-- src/zip_tree.rs: `insert_path` and `FolderTree::from_zip_names`.
pub mod Folders
pub mod Seeds
pub mod Paths
pub mod Cached
pub mod Members
use odf_crypto.Prelude.{
  false, not, ◌&&◌, Option, none, some, List, [], ◌∷◌, Str, if◌then◌else◌, is_empty, Assoc, insert,
  contains_key, split, rsplit_once, ends_with, trim_end_matches, Result, ok, err,
}
use odf_crypto.ZipTree.Node.{
  FolderNode, node, TreeNode, StreamAsFolder, stream_as_folder, empty_folder, get_child, put_child,
}

-- `entry(part).or_insert_with(default folder)`, unless it is a stream
abbrev pub enter : Option TreeNode → Result StreamAsFolder FolderNode
enter none = ok empty_folder
enter (some (TreeNode.folder f)) = ok f
enter (some (TreeNode.stream m t)) = err stream_as_folder

abbrev pub add_stream : FolderNode → Str → Option TreeNode → Result StreamAsFolder FolderNode
add_stream root name (some (TreeNode.folder f)) = err stream_as_folder
add_stream root name (some (TreeNode.stream m t)) = ok root
add_stream (node meta cs) name none =
    ok (node meta (put_child name (TreeNode.stream false none) cs))

abbrev pub put_stream : FolderNode → Option Str → Result StreamAsFolder FolderNode
put_stream root none = ok root
put_stream root (some []) = ok root
put_stream (node meta cs) (some (c ∷ name)) =
    add_stream (node meta cs) (c ∷ name) (get_child (c ∷ name) cs)

-- The loop over the folder parts, and the stream at its end.
unfoldable pub insert_at : FolderNode → List Str → Option Str → Result StreamAsFolder FolderNode
insert_at root [] name = put_stream root name
insert_at (node meta cs) (part ∷ parts) name = elim (enter (get_child part cs)) [
  | err e ↦ err e
  | ok f ↦ elim (insert_at f parts name) [
    | err e ↦ err e
    | ok f' ↦ ok (node meta (put_child part (TreeNode.folder f') cs))
  ]
]

-- The loop stops at the first empty part.
unfoldable pub leading_parts : List Str → List Str
leading_parts [] = []
leading_parts ([] ∷ parts) = []
leading_parts ((c ∷ p) ∷ parts) = (c ∷ p) ∷ leading_parts parts

-- The folder part and the stream name of a member.
unfoldable pub member_parts : Str → Str × Option Str
member_parts name =
    if ends_with b'/' name
    then (trim_end_matches b'/' name, none)
    else elim (rsplit_once b'/' name) [
      | some (dir, last) ↦ (dir, some last)
      | none ↦ ([], some name)
    ]

unfoldable pub insert_path : FolderNode → Str → Result StreamAsFolder FolderNode
insert_path root name =
    let (dir, last) = member_parts name in insert_at root (leading_parts (split b'/' dir)) last

-- `while let Some(rel) = name[n_old..].find('/')`, over the pieces between the slashes
unfoldable pub containing_folder : List Str → List Str
containing_folder [] = []
containing_folder (p ∷ []) = []
containing_folder ([] ∷ q ∷ ps) = []
containing_folder ((c ∷ p) ∷ q ∷ ps) = (c ∷ p) ∷ containing_folder (q ∷ ps)

unfoldable pub walk_containing_folder : Str → List Str
walk_containing_folder name = containing_folder (split b'/' name)

pub record FolderTree : Type 0 where
  pub root : FolderNode
  pub recent : Assoc (List Str)

-- The first member of a folder seeds the cache.
unfoldable pub seed_recent : Assoc (List Str) → Str → Assoc (List Str)
seed_recent recent name = elim (rsplit_once b'/' name) [
  | none ↦ recent
  | some (dir, last) ↦
      if not (is_empty dir) && not (contains_key dir recent)
      then insert dir (walk_containing_folder name) recent
      else recent
]

unfoldable pub insert_names : FolderTree → List Str → Result StreamAsFolder FolderTree
insert_names t [] = ok t
insert_names t (name ∷ names) = elim (insert_path t.root name) [
  | err e ↦ err e
  | ok root ↦ insert_names (record { root = root; recent = seed_recent t.recent name }) names
]

unfoldable pub from_zip_names : List Str → Result StreamAsFolder FolderTree
from_zip_names = insert_names (record { root = empty_folder; recent = [] })
