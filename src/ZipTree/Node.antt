-- ===== src/ZipTree/Node.antt =====
-- src/zip_tree.rs: the nodes, lookups in them and the updates of their metadata. The children of
-- a folder are an association list, each name once; the order of the source's `BTreeMap` is not
-- observable, since the one traversal of it asks whether some child satisfies a test.
use odf_crypto.Prelude.{
  Bool, true, Option, none, some, List, [], ◌∷◌, ◌++◌, Str, str_eq, if◌then◌else◌, join,
}

pub record FolderMeta : Type 0 where
  pub media_type : Option Str
  pub version : Option Str

mutual
  pub data TreeNode : Type 0 where
    folder : FolderNode → TreeNode
    stream : Bool → Option Str → TreeNode

  pub data FolderNode : Type 0 where
    node : FolderMeta → Children → FolderNode

  pub data Children : Type 0 where
    nil : Children
    cons : Str → TreeNode → Children → Children

pub data ResolvedKind : Type 0 where
  folder stream : ResolvedKind

pub record Resolved : Type 0 where
  pub kind : ResolvedKind
  pub tree_path : Str

pub data StreamAsFolder : Type 0 where
  stream_as_folder : StreamAsFolder

-- `FolderNode::default()`
abbrev pub empty_folder : FolderNode
empty_folder = node (record { media_type = none; version = none }) nil

unfoldable pub get_child : Str → Children → Option TreeNode
get_child name nil = none
get_child name (cons n t cs) = if str_eq n name then some t else get_child name cs

-- `insert`: in place, or a new last child
unfoldable pub put_child : Str → TreeNode → Children → Children
put_child name t nil = cons name t nil
put_child name t (cons n u cs) =
    let later = put_child name t cs in if str_eq n name then cons n t cs else cons n u later

abbrev pub children_of : FolderNode → Children
children_of (node meta cs) = cs

abbrev pub meta_of : FolderNode → FolderMeta
meta_of (node meta cs) = meta

-- `None` at a name that is missing or no folder
abbrev pub as_folder : Option TreeNode → Option FolderNode
as_folder (some (TreeNode.folder f)) = some f
as_folder (some (TreeNode.stream m t)) = none
as_folder none = none

unfoldable pub node_at : FolderNode → List Str → Option FolderNode
node_at root [] = some root
node_at root (part ∷ parts) = elim (as_folder (get_child part (children_of root))) [
  | none ↦ none
  | some f ↦ node_at f parts
]

abbrev pub kind_of : Option TreeNode → Option ResolvedKind
kind_of none = none
kind_of (some (TreeNode.folder f)) = some ResolvedKind.folder
kind_of (some (TreeNode.stream m t)) = some ResolvedKind.stream

unfoldable pub child_kind : FolderNode → List Str → Str → Option ResolvedKind
child_kind root parts name = elim (node_at root parts) [
  | none ↦ none
  | some f ↦ kind_of (get_child name (children_of f))
]

unfoldable pub get_name : List Str → Str
get_name [] = []
get_name (p ∷ []) = p
get_name (p ∷ q ∷ ps) = get_name (q ∷ ps)

unfoldable pub folder_tree_path : List Str → Str
folder_tree_path [] = b'/' ∷ []
folder_tree_path (p ∷ parts) = join b'/' (p ∷ parts) ++ b'/' ∷ []

unfoldable pub stream_tree_path : List Str → Str → Str
stream_tree_path [] name = name
stream_tree_path (p ∷ parts) name = join b'/' (p ∷ parts) ++ (b'/' ∷ name)

-- `tree_path.split('/')` without its empty parts
unfoldable pub nonempty_parts : List Str → List Str
nonempty_parts [] = []
nonempty_parts ([] ∷ parts) = nonempty_parts parts
nonempty_parts ((c ∷ p) ∷ parts) = (c ∷ p) ∷ nonempty_parts parts

-- The metadata of the folder that `folder_at_mut` reaches, set; nothing where it reaches none.
unfoldable pub set_meta_at : FolderNode → List Str → FolderMeta → FolderNode
set_meta_at (node meta cs) [] new = node new cs
set_meta_at (node meta cs) (part ∷ parts) new = elim (as_folder (get_child part cs)) [
  | none ↦ node meta cs
  | some f ↦ node meta (put_child part (TreeNode.folder (set_meta_at f parts new)) cs)
]

abbrev mark_child : Str → Option Str → Children → Option TreeNode → Children
mark_child name media_type cs (some (TreeNode.stream m t)) =
    put_child name (TreeNode.stream true media_type) cs
mark_child name media_type cs (some (TreeNode.folder f)) = cs
mark_child name media_type cs none = cs

-- The stream that `stream_at_mut` reaches, marked; nothing where it reaches none.
unfoldable pub mark_at : FolderNode → List Str → Option Str → FolderNode
mark_at root [] media_type = root
mark_at (node meta cs) (name ∷ []) media_type =
    node meta (mark_child name media_type cs (get_child name cs))
mark_at (node meta cs) (part ∷ q ∷ parts) media_type = elim (as_folder (get_child part cs)) [
  | none ↦ node meta cs
  | some f ↦ node meta (put_child part (TreeNode.folder (mark_at f (q ∷ parts) media_type)) cs)
]
