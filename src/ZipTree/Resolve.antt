-- ===== src/ZipTree/Resolve.antt =====
-- src/zip_tree.rs: the queries of `FolderTree`, and `resolve` with LibreOffice's folder cache. An
-- operation that takes `&mut self` gives the new tree beside its result.
pub mod Sound
pub mod Shape
use odf_crypto.Prelude.{
  Bool, true, false, Option, none, some, List, [], ◌∷◌, ◌++◌, Str, str_eq, if◌then◌else◌, is_empty,
  is_some, get, insert, remove, split, join, rsplit_once, Result, ok, err,
}
use odf_crypto.ZipTree.Node.{
  FolderNode, FolderMeta, TreeNode, ResolvedKind, Resolved, StreamAsFolder, stream_as_folder,
  get_child, children_of, meta_of, child_kind, kind_of, get_name, folder_tree_path,
  stream_tree_path, nonempty_parts, set_meta_at, mark_at,
}
use odf_crypto.ZipTree.Insert.{FolderTree}

unfoldable pub root_has_entry : FolderTree → Str → Bool
root_has_entry t name = is_some (get_child name (children_of t.root))

abbrev is_stream : Option TreeNode → Bool
is_stream none = false
is_stream (some (TreeNode.folder f)) = false
is_stream (some (TreeNode.stream m mt)) = true

unfoldable pub root_has_stream : FolderTree → Str → Bool
root_has_stream t name = is_stream (get_child name (children_of t.root))

abbrev media_type_of : Option TreeNode → Option Str
media_type_of none = none
media_type_of (some (TreeNode.folder f)) = (meta_of f).media_type
media_type_of (some (TreeNode.stream m mt)) = mt

unfoldable pub root_entry_media_type : FolderTree → Str → Option Str
root_entry_media_type t name = media_type_of (get_child name (children_of t.root))

unfoldable pub root_meta : FolderTree → FolderMeta
root_meta t = meta_of t.root

abbrev pub resolved : ResolvedKind → Str → Option Resolved
resolved kind path = some (record { kind = kind; tree_path = path })

-- The path of a child that was found.
unfoldable pub child_path : ResolvedKind → List Str → Str → Str
child_path ResolvedKind.stream parts name = stream_tree_path parts name
child_path ResolvedKind.folder parts name = folder_tree_path (parts ++ name ∷ [])

-- How the walk ends: at a stream used as a folder, at a missing part, or at the last part or an
-- empty one, with the rest of the path.
pub data WalkEnd : Type 0 where
  in_stream missing : WalkEnd
  stopped : List Str → Option (List Str) → Str → WalkEnd

-- The loop of `walk_resolve`, over the pieces of `path[n_old..]` between the slashes.
unfoldable pub walk_loop : FolderNode → List Str → Option (List Str) → List Str → WalkEnd
walk_loop root current previous [] = stopped current previous []
walk_loop root current previous (p ∷ []) = stopped current previous p
walk_loop root current previous (p ∷ q ∷ ps) = elim (is_empty p) [
  | true ↦ stopped current previous (join b'/' (p ∷ q ∷ ps))
  | false ↦ elim (child_kind root current p) [
    | some ResolvedKind.folder ↦ walk_loop root (current ++ p ∷ []) (some current) (q ∷ ps)
    | some ResolvedKind.stream ↦ in_stream
    | none ↦ missing
  ]
]

abbrev pub Outcome : Type 0
Outcome = FolderTree × Result StreamAsFolder (Option Resolved)

unfoldable pub remember : FolderTree → Option Str → List Str → FolderTree
remember t none parts = t
remember t (some dir) parts = record t { recent = insert dir parts t.recent }

-- A folder row caches the folder above the one that it names.
unfoldable pub remember_previous : FolderTree → Option Str → Option (List Str) → FolderTree
remember_previous t dir none = t
remember_previous t dir (some previous) = remember t dir previous

unfoldable pub finish_walk : FolderTree → Bool → Option Str → WalkEnd → Outcome
finish_walk t b_folder dir in_stream = (t, err stream_as_folder)
finish_walk t b_folder dir missing = (t, ok none)
finish_walk t b_folder dir (stopped current previous s_temp) =
    if b_folder
    then (
      remember_previous t dir previous,
      ok (resolved ResolvedKind.folder (folder_tree_path current)),
    )
    else elim (child_kind t.root current s_temp) [
      | some kind ↦ (remember t dir current, ok (resolved kind (child_path kind current s_temp)))
      | none ↦ (t, ok none)
    ]

unfoldable pub walk_resolve : FolderTree → Str → Bool → Option Str → Outcome
walk_resolve t path b_folder dir =
    finish_walk t b_folder dir (walk_loop t.root [] none (split b'/' path))

-- The part behind the last slash of `dir`, or all of it.
unfoldable pub last_part : Str → Str
last_part dir = elim (rsplit_once b'/' dir) [ none ↦ dir | some (before, last) ↦ last ]

abbrev pub forget : FolderTree → Str → FolderTree
forget t dir = record t { recent = remove dir t.recent }

unfoldable pub resolve_cached : FolderTree → Str → Str → Str → List Str → Outcome
resolve_cached t path dir name cached =
    if is_empty name
    then (if str_eq (last_part dir) (get_name cached)
        then (t, ok (resolved ResolvedKind.folder (folder_tree_path cached)))
        else walk_resolve (forget t dir) path true (some dir))
    else elim (child_kind t.root cached name) [
      | some kind ↦ (t, ok (resolved kind (child_path kind cached name)))
      | none ↦ walk_resolve (forget t dir) path false (some dir)
    ]

abbrev pub resolve_in_root : Str → Option ResolvedKind → Option Resolved
resolve_in_root path none = none
resolve_in_root path (some ResolvedKind.folder) =
    resolved ResolvedKind.folder (folder_tree_path (path ∷ []))
resolve_in_root path (some ResolvedKind.stream) = resolved ResolvedKind.stream path

unfoldable pub resolve : FolderTree → Str → Outcome
resolve t path =
    if str_eq path (b'/' ∷ [])
    then (t, ok (resolved ResolvedKind.folder (b'/' ∷ [])))
    else if is_empty path
    then (t, ok none)
    else elim (rsplit_once b'/' path) [
      | none ↦ (t, ok (resolve_in_root path (kind_of (get_child path (children_of t.root)))))
      | some (dir, name) ↦ elim (get dir t.recent) [
        | some cached ↦ resolve_cached t path dir name cached
        | none ↦ walk_resolve t path (is_empty name) (some dir)
      ]
    ]

-- `folder_at_mut` takes "/" and "" for the root, whose path has no part.
unfoldable pub set_folder_meta : FolderTree → Str → Option Str → Option Str → FolderTree
set_folder_meta t tree_path media_type version = record t {
  root =
      set_meta_at t.root (nonempty_parts (split b'/' tree_path))
        (record { media_type = media_type; version = version });
}

unfoldable pub mark_from_manifest : FolderTree → Str → Option Str → FolderTree
mark_from_manifest t tree_path media_type = record t {
  root = mark_at t.root (nonempty_parts (split b'/' tree_path)) media_type;
}
