-- ===== src/ZipTree/Resolve/Sound.antt =====
-- src/zip_tree.rs: what `resolve` answers is in the tree.
use odf_crypto.Prelude.{
  Bool, true, false, Option, none, some, List, [], ◌∷◌, ◌++◌, ◌≡◌, refl, subst, arith, Str, str_eq,
  is_empty, is_some, get, split, rsplit_once, Result, ok, err, Bool-cases, Option-cases, inl, inr,
  get-insert, get-remove,
}
use odf_crypto.ZipTree.Node.{
  FolderNode, ResolvedKind, Resolved, StreamAsFolder, get_child, children_of, as_folder, node_at,
  kind_of, child_kind, folder_tree_path, stream_tree_path, get_name,
}
use odf_crypto.ZipTree.Insert.{FolderTree}
use odf_crypto.ZipTree.Resolve.{
  Outcome, WalkEnd, in_stream, missing, stopped, child_path, walk_loop, remember, remember_previous,
  finish_walk, walk_resolve, forget, last_part, resolve_cached, resolve_in_root, resolve,
}

abbrev pub IsFolder : FolderNode → List Str → Type 0
IsFolder root parts = is_some (node_at root parts) ≡ true

-- A node of the kind stands in the tree, and the path is its path.
abbrev pub Denotes : FolderNode → ResolvedKind → Str → Type 0
Denotes root ResolvedKind.stream path =
    (parts : List Str) × (name : Str) × (child_kind root parts name ≡ some ResolvedKind.stream)
    × (path ≡ stream_tree_path parts name)
Denotes root ResolvedKind.folder path =
    (parts : List Str) × IsFolder root parts × (path ≡ folder_tree_path parts)

-- Every folder of the cache is in the tree.
abbrev pub IsCached : FolderTree → Type 0
IsCached t = (dir : Str) (parts : List Str) → get dir t.recent ≡ some parts → IsFolder t.root parts

abbrev pub IsAnswer : FolderNode → Result StreamAsFolder (Option Resolved) → Type 0
IsAnswer root (err e) = Unit
IsAnswer root (ok none) = Unit
IsAnswer root (ok (some r)) = Denotes root r.kind r.tree_path

pub record Answers (t : FolderTree) (out : Outcome) : Type 0 where
  pub same_root : out.0.root ≡ t.root
  pub cached : IsCached out.0
  pub answer : IsAnswer t.root out.1

-- A child folder of a folder is a folder.
child-IsFolder :
    (root : FolderNode) (parts : List Str) (name : Str)
    → child_kind root parts name ≡ some ResolvedKind.folder
    → IsFolder root (parts ++ name ∷ [])
unfolding child_kind node_at
child-IsFolder root [] name h = ground arith
child-IsFolder root (part ∷ parts) name h =
    elim (Option-cases (as_folder (get_child part (children_of root)))) [
      | inl e ↦ cc (rw (e, child_kind, node_at) at h)
      | inr (f, e) ↦
          rw (e, node_at) (child-IsFolder f parts name (rw (e, child_kind, node_at) at h))
    ]

child_path-Denotes :
    (root : FolderNode) (kind : ResolvedKind) (parts : List Str) (name : Str)
    → child_kind root parts name ≡ some kind
    → Denotes root kind (child_path kind parts name)
unfolding child_path
child_path-Denotes root ResolvedKind.stream parts name h = (parts, name, h, refl)
child_path-Denotes root ResolvedKind.folder parts name h =
    (parts ++ name ∷ [], child-IsFolder root parts name h, refl)

remember-IsCached :
    (t : FolderTree) (dir : Str) (parts : List Str)
    → IsCached t
    → IsFolder t.root parts
    → IsCached (remember t (some dir) parts)
unfolding remember
remember-IsCached t dir parts h f dir' parts' found =
    let at_dir' = get-insert dir' dir parts t.recent in
    elim (Bool-cases (str_eq dir dir')) [
      | inl e ↦ subst (λ (p : List Str). IsFolder t.root p) (cc (rw e at at_dir', found)) f
      | inr e ↦ h dir' parts' (cc (rw e at at_dir', found))
    ]

forget-IsCached : (t : FolderTree) (dir : Str) → IsCached t → IsCached (forget t dir)
forget-IsCached t dir h dir' parts' found =
    let at_dir' = get-remove dir' dir t.recent in
    elim (Bool-cases (str_eq dir dir')) [
      | inl e ↦ cc (rw e at at_dir', found)
      | inr e ↦ h dir' parts' (cc (rw e at at_dir', found))
    ]

-- The folders that a walk carries are in the tree.
abbrev IsPrevious : FolderNode → Option (List Str) → Type 0
IsPrevious root none = Unit
IsPrevious root (some parts) = IsFolder root parts

abbrev IsWalked : FolderNode → WalkEnd → Type 0
IsWalked root (stopped current previous rest) = IsFolder root current × IsPrevious root previous
IsWalked root _ = Unit

walk_loop-IsWalked :
    (root : FolderNode) (current : List Str) (previous : Option (List Str)) (pieces : List Str)
    → IsFolder root current
    → IsPrevious root previous
    → IsWalked root (walk_loop root current previous pieces)
unfolding walk_loop
walk_loop-IsWalked root current previous [] c p = (c, p)
walk_loop-IsWalked root current previous (q ∷ []) c p = (c, p)
walk_loop-IsWalked root current previous (q ∷ r ∷ ps) c p = elim (Bool-cases (is_empty q)) [
  | inl e ↦ rw (e, walk_loop) (c, p)
  | inr e ↦ elim (Option-cases (child_kind root current q)) [
    | inl k ↦ rw (e, k, walk_loop) tt
    | inr (ResolvedKind.stream, k) ↦ rw (e, k, walk_loop) tt
    | inr (ResolvedKind.folder, k) ↦
        rw (e, k, walk_loop)
          (walk_loop-IsWalked root (current ++ q ∷ []) (some current) (r ∷ ps)
            (child-IsFolder root current q k) c)
  ]
]

finish_walk-Answers :
    (t : FolderTree) (b_folder : Bool) (dir : Str) (end : WalkEnd)
    → IsCached t
    → IsWalked t.root end
    → Answers t (finish_walk t b_folder (some dir) end)
unfolding finish_walk remember_previous
finish_walk-Answers t b_folder dir in_stream h w = record {
  same_root = refl;
  cached = h;
  answer = tt;
}
finish_walk-Answers t b_folder dir missing h w = record {
  same_root = refl;
  cached = h;
  answer = tt;
}
finish_walk-Answers t true dir (stopped current none rest) h w = record {
  same_root = refl;
  cached = h;
  answer = (current, w.0, refl);
}
finish_walk-Answers t true dir (stopped current (some previous) rest) h w = record {
  same_root = unfold remember in refl;
  cached = remember-IsCached t dir previous h w.1;
  answer = (current, w.0, refl);
}
finish_walk-Answers t false dir (stopped current previous rest) h w =
    elim (Option-cases (child_kind t.root current rest)) [
      | inl k ↦ rw (k, finish_walk) (record { same_root = refl; cached = h; answer = tt })
      | inr (kind, k) ↦
          rw (k, finish_walk)
            (record {
              same_root = unfold remember in refl;
              cached = remember-IsCached t dir current h w.0;
              answer = child_path-Denotes t.root kind current rest k;
            })
    ]

walk_resolve-Answers :
    (t : FolderTree) (path : Str) (b_folder : Bool) (dir : Str)
    → IsCached t
    → Answers t (walk_resolve t path b_folder (some dir))
unfolding walk_resolve node_at
walk_resolve-Answers t path b_folder dir h =
    finish_walk-Answers t b_folder dir _ h
      (walk_loop-IsWalked t.root [] none (split b'/' path) refl tt)

-- A walk after the cached folder is forgotten.
rewalk-Answers :
    (t : FolderTree) (path : Str) (b_folder : Bool) (dir : Str)
    → IsCached t
    → Answers t (walk_resolve (forget t dir) path b_folder (some dir))
rewalk-Answers t path b_folder dir h =
    let a = walk_resolve-Answers (forget t dir) path b_folder dir (forget-IsCached t dir h) in
    record { same_root = a.same_root; cached = a.cached; answer = a.answer }

resolve_cached-Answers :
    (t : FolderTree) (path dir name : Str) (parts : List Str)
    → IsCached t
    → IsFolder t.root parts
    → Answers t (resolve_cached t path dir name parts)
unfolding resolve_cached
resolve_cached-Answers t path dir name parts h f = elim (Bool-cases (is_empty name)) [
  | inl e ↦ elim (Bool-cases (str_eq (last_part dir) (get_name parts))) [
    | inl same ↦ rw (e, same) (record { same_root = refl; cached = h; answer = (parts, f, refl) })
    | inr different ↦ rw (e, different) (rewalk-Answers t path true dir h)
  ]
  | inr e ↦ elim (Option-cases (child_kind t.root parts name)) [
    | inl k ↦ rw (e, k, resolve_cached) (rewalk-Answers t path false dir h)
    | inr (kind, k) ↦
        rw (e, k, resolve_cached)
          (record {
            same_root = refl;
            cached = h;
            answer = child_path-Denotes t.root kind parts name k;
          })
  ]
]

root_child-Answers :
    (t : FolderTree) (path : Str)
    → IsCached t
    → Answers t (t, ok (resolve_in_root path (kind_of (get_child path (children_of t.root)))))
unfolding child_kind node_at stream_tree_path
root_child-Answers t path h = elim (Option-cases (kind_of (get_child path (children_of t.root)))) [
  | inl k ↦ rw k (record { same_root = refl; cached = h; answer = tt })
  | inr (ResolvedKind.stream, k) ↦
      rw k (record { same_root = refl; cached = h; answer = ([], path, k, refl) })
  | inr (ResolvedKind.folder, k) ↦ rw k (record {
    same_root = refl;
    cached = h;
    answer = (path ∷ [], child-IsFolder t.root [] path k, refl);
  })
]

-- Where every cached folder is in the tree, `resolve` leaves the nodes as they are and the cache
-- with that property, and the node that it answers is in the tree, with the path answered: a
-- stream under that folder and name, or a folder.
pub resolve-Answers : (t : FolderTree) (path : Str) → IsCached t → Answers t (resolve t path)
unfolding resolve folder_tree_path node_at
resolve-Answers t path h = elim (Bool-cases (str_eq path (b'/' ∷ []))) [
  | inl e ↦ rw e (record { same_root = refl; cached = h; answer = ([], refl, refl) })
  | inr e ↦ elim (Bool-cases (is_empty path)) [
    | inl empty ↦ rw (e, empty) (record { same_root = refl; cached = h; answer = tt })
    | inr full ↦ elim (Option-cases (rsplit_once b'/' path)) [
      | inl no_slash ↦ rw (e, full, no_slash, resolve) (root_child-Answers t path h)
      | inr ((dir, name), slash) ↦ elim (Option-cases (get dir t.recent)) [
        | inl miss ↦
            rw (e, full, slash, miss, resolve) (walk_resolve-Answers t path (is_empty name) dir h)
        | inr (parts, hit) ↦
            rw (e, full, slash, hit, resolve)
              (resolve_cached-Answers t path dir name parts h (h dir parts hit))
      ]
    ]
  ]
]
