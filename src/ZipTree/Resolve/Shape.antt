-- ===== src/ZipTree/Resolve/Shape.antt =====
-- src/zip_tree.rs: the updates of metadata keep the shape of the tree: its folders, and the kind of
-- every child.
use odf_crypto.Prelude.{
  true, Option, none, some, List, [], ◌∷◌, ◌≡◌, refl, sym, ap, ◌∙◌, Str, str_eq, str_eq_iff,
  is_some, Bool-cases, Option-cases, ◌⊎◌, inl, inr,
}
use odf_crypto.ZipTree.Node.{
  FolderNode, FolderMeta, node, TreeNode, Children, ResolvedKind, get_child, put_child, as_folder,
  node_at, kind_of, child_kind, set_meta_at, mark_at,
}
use odf_crypto.ZipTree.Insert.{FolderTree}
use odf_crypto.ZipTree.Insert.Folders.{get_child-put_child}
use odf_crypto.ZipTree.Resolve.{set_folder_meta, mark_from_manifest}

pub record SameShape (root root' : FolderNode) : Type 0 where
  pub folders : (qs : List Str) → is_some (node_at root' qs) ≡ is_some (node_at root qs)
  pub kinds : (qs : List Str) (name : Str) → child_kind root' qs name ≡ child_kind root qs name

pub SameShape-refl : (root : FolderNode) → SameShape root root
SameShape-refl root = record { folders = λ qs. refl; kinds = λ qs name. refl }

pub SameShape-trans : {a b c : FolderNode} → SameShape a b → SameShape b c → SameShape a c
SameShape-trans h k = record {
  folders = λ qs. k.folders qs ∙ h.folders qs;
  kinds = λ qs name. k.kinds qs name ∙ h.kinds qs name;
}

same_meta : (old new : FolderMeta) (cs : Children) → SameShape (node old cs) (node new cs)
same_meta old new cs = record { folders = folders; kinds = kinds }
  where
    folders :
        (qs : List Str) → is_some (node_at (node new cs) qs) ≡ is_some (node_at (node old cs) qs)
    folders [] = unfold node_at in refl
    folders (q ∷ qs) = unfold node_at in refl

    kinds :
        (qs : List Str) (name : Str)
        → child_kind (node new cs) qs name ≡ child_kind (node old cs) qs name
    kinds [] name = unfold child_kind in unfold node_at in refl
    kinds (q ∷ qs) name = unfold child_kind in unfold node_at in refl

-- Two children are alike when a walk cannot tell them apart.
record Alike (t u : Option TreeNode) : Type 0 where
  kind : kind_of u ≡ kind_of t
  folder :
      ((as_folder t ≡ none) × (as_folder u ≡ none))
      ⊎ ((f : FolderNode) × (g : FolderNode) × (as_folder t ≡ some f)
          × (as_folder u ≡ some g)
          × SameShape f g)

module _ (meta : FolderMeta) (cs : Children) (part : Str) (t : TreeNode)
    (alike : Alike (get_child part cs) (some t)) where
  put-folders :
      (qs : List Str)
      → is_some (node_at (node meta (put_child part t cs)) qs) ≡ is_some (node_at (node meta cs) qs)
  unfolding node_at
  put-folders [] = refl
  put-folders (q ∷ qs) =
      let later = get_child-put_child q part t cs in
      elim (Bool-cases (str_eq part q)) [
        | inr other ↦
            let same_child : get_child q (put_child part t cs) ≡ get_child q cs =
              rw other at later in
            rw (same_child, node_at) refl
        | inl same ↦
            let part_q : part ≡ q = (str_eq_iff part q).0 same in
            let now : get_child q (put_child part t cs) ≡ some t = rw same at later in
            let old : get_child q cs ≡ get_child part cs =
              ap (λ (x : Str). get_child x cs) (sym part_q) in
            elim alike.folder [
              | inl (e, e') ↦ rw (now, old, e, e', node_at) refl
              | inr (f, g, e, e', s) ↦ rw (now, old, e, e', node_at) (s.folders qs)
            ]
      ]

  put-kinds :
      (qs : List Str) (name : Str)
      → child_kind (node meta (put_child part t cs)) qs name ≡ child_kind (node meta cs) qs name
  unfolding child_kind node_at
  put-kinds [] name =
      let later = get_child-put_child name part t cs in
      elim (Bool-cases (str_eq part name)) [
        | inr other ↦ ap kind_of (rw other at later)
        | inl same ↦
            ap kind_of (rw same at later)
            ∙ (alike.kind
                ∙ ap (λ (x : Str). kind_of (get_child x cs)) ((str_eq_iff part name).0 same))
      ]
  put-kinds (q ∷ qs) name =
      let later = get_child-put_child q part t cs in
      elim (Bool-cases (str_eq part q)) [
        | inr other ↦
            let same_child : get_child q (put_child part t cs) ≡ get_child q cs =
              rw other at later in
            rw (same_child, node_at, child_kind) refl
        | inl same ↦
            let part_q : part ≡ q = (str_eq_iff part q).0 same in
            let now : get_child q (put_child part t cs) ≡ some t = rw same at later in
            let old : get_child q cs ≡ get_child part cs =
              ap (λ (x : Str). get_child x cs) (sym part_q) in
            elim alike.folder [
              | inl (e, e') ↦ rw (now, old, e, e', node_at, child_kind) refl
              | inr (f, g, e, e', s) ↦ rw (now, old, e, e', node_at, child_kind) (s.kinds qs name)
            ]
      ]

  put-SameShape : SameShape (node meta cs) (node meta (put_child part t cs))
  put-SameShape = record { folders = put-folders; kinds = put-kinds }

as_folder-kind :
    (t : Option TreeNode) (f : FolderNode)
    → as_folder t ≡ some f
    → kind_of t ≡ some ResolvedKind.folder
as_folder-kind none f e = cc
as_folder-kind (some (TreeNode.folder g)) f e = refl
as_folder-kind (some (TreeNode.stream m mt)) f e = cc

folder-Alike :
    (t : Option TreeNode) (f g : FolderNode)
    → as_folder t ≡ some f
    → SameShape f g
    → Alike t (some (TreeNode.folder g))
folder-Alike t f g e s = record {
  kind = sym (as_folder-kind t f e);
  folder = inr (f, g, e, refl, s);
}

set_meta_at-SameShape :
    (root : FolderNode) (parts : List Str) (new : FolderMeta)
    → SameShape root (set_meta_at root parts new)
unfolding set_meta_at
set_meta_at-SameShape (node meta cs) [] new = same_meta meta new cs
set_meta_at-SameShape (node meta cs) (part ∷ parts) new =
    elim (Option-cases (as_folder (get_child part cs))) [
      | inl e ↦ rw (e, set_meta_at) (SameShape-refl (node meta cs))
      | inr (f, e) ↦
          rw (e, set_meta_at)
            (put-SameShape meta cs part (TreeNode.folder (set_meta_at f parts new))
              (folder-Alike (get_child part cs) f _ e (set_meta_at-SameShape f parts new)))
    ]

mark_at-SameShape :
    (root : FolderNode) (parts : List Str) (mt : Option Str)
    → SameShape root (mark_at root parts mt)
unfolding mark_at
mark_at-SameShape root [] mt = SameShape-refl root
mark_at-SameShape (node meta cs) (name ∷ []) mt = elim (Option-cases (get_child name cs)) [
  | inl e ↦ rw (e, mark_at) (SameShape-refl (node meta cs))
  | inr (TreeNode.folder f, e) ↦ rw (e, mark_at) (SameShape-refl (node meta cs))
  | inr (TreeNode.stream m t, e) ↦
      rw (e, mark_at)
        (put-SameShape meta cs name (TreeNode.stream true mt)
          (rw e (record { kind = refl; folder = inl (refl, refl) })))
]
mark_at-SameShape (node meta cs) (part ∷ q ∷ parts) mt =
    elim (Option-cases (as_folder (get_child part cs))) [
      | inl e ↦ rw (e, mark_at) (SameShape-refl (node meta cs))
      | inr (f, e) ↦
          rw (e, mark_at)
            (put-SameShape meta cs part (TreeNode.folder (mark_at f (q ∷ parts) mt))
              (folder-Alike (get_child part cs) f _ e (mark_at-SameShape f (q ∷ parts) mt)))
    ]

pub set_folder_meta-SameShape :
    (t : FolderTree) (path : Str) (mt version : Option Str)
    → SameShape t.root (set_folder_meta t path mt version).root
unfolding set_folder_meta
set_folder_meta-SameShape t path mt version = set_meta_at-SameShape t.root _ _

pub mark_from_manifest-SameShape :
    (t : FolderTree) (path : Str) (mt : Option Str)
    → SameShape t.root (mark_from_manifest t path mt).root
unfolding mark_from_manifest
mark_from_manifest-SameShape t path mt = mark_at-SameShape t.root _ _
