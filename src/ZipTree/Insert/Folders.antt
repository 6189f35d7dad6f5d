-- ===== src/ZipTree/Insert/Folders.antt =====
-- src/zip_tree.rs: a member's folders are in the tree once it is inserted, and stay there.
use odf_crypto.Prelude.{
  false, Option, none, some, List, [], ◌∷◌, ◌≡◌, refl, sym, ap, ◌∙◌, subst, arith, Str, str_eq,
  str_eq_iff, if◌then◌else◌, ok, Bool-cases, Option-cases, Result-cases, ok-injective, inl, inr,
}
use odf_crypto.ZipTree.Node.{
  FolderNode, node, TreeNode, get_child, put_child, children_of, as_folder, node_at, Children, nil,
  cons,
}
use odf_crypto.ZipTree.Insert.{enter, add_stream, put_stream, insert_at}
use odf_crypto.ZipTree.Resolve.Sound.{IsFolder}

pub get_child-put_child :
    (n m : Str) (t : TreeNode) (cs : Children)
    → get_child n (put_child m t cs) ≡ (if str_eq m n then some t else get_child n cs)
unfolding get_child put_child
get_child-put_child n m t nil = refl
get_child-put_child n m t (cons k u cs) =
    ground (arith, get_child-put_child n m t cs, str_eq_iff k m, str_eq_iff k n, str_eq_iff m n)

-- The child folder that the first part of a path names.
pub IsFolder-first :
    (root : FolderNode) (q : Str) (qs : List Str)
    → IsFolder root (q ∷ qs)
    → (f : FolderNode) × (as_folder (get_child q (children_of root)) ≡ some f) × IsFolder f qs
unfolding node_at
IsFolder-first root q qs h = elim (Option-cases (as_folder (get_child q (children_of root)))) [
  | inl e ↦ cc (rw (e, node_at) at h)
  | inr (f, e) ↦ (f, e, rw (e, node_at) at h)
]

pub first-IsFolder :
    (root f : FolderNode) (q : Str) (qs : List Str)
    → as_folder (get_child q (children_of root)) ≡ some f
    → IsFolder f qs
    → IsFolder root (q ∷ qs)
unfolding node_at
first-IsFolder root f q qs e h = rw (e, node_at) h

add_stream-keeps :
    (root root' : FolderNode) (name q : Str) (f : FolderNode)
    → add_stream root name (get_child name (children_of root)) ≡ ok root'
    → as_folder (get_child q (children_of root)) ≡ some f
    → as_folder (get_child q (children_of root')) ≡ some f
add_stream-keeps (node meta cs) root' name q f h e = elim (Option-cases (get_child name cs)) [
  | inl free ↦
      let same : root' ≡ node meta (put_child name (TreeNode.stream false none) cs) =
        sym (ok-injective (rw free at h)) in
      let later = get_child-put_child q name (TreeNode.stream false none) cs in
      elim (Bool-cases (str_eq name q)) [
        | inl eq ↦ cc (free, (str_eq_iff name q).0 eq, e)
        | inr ne ↦ rw same (cc (rw ne at later, e))
      ]
  | inr (TreeNode.stream m mt, taken) ↦
      let same : root' ≡ node meta cs = sym (ok-injective (rw taken at h)) in rw same e
  | inr (TreeNode.folder g, taken) ↦ cc (rw taken at h)
]

pub put_stream-keeps :
    (root root' : FolderNode) (last : Option Str) (q : Str) (f : FolderNode)
    → put_stream root last ≡ ok root'
    → as_folder (get_child q (children_of root)) ≡ some f
    → as_folder (get_child q (children_of root')) ≡ some f
put_stream-keeps root root' none q f h e = rw (sym (ok-injective h)) e
put_stream-keeps root root' (some []) q f h e = rw (sym (ok-injective h)) e
put_stream-keeps (node meta cs) root' (some (c ∷ name)) q f h e =
    add_stream-keeps (node meta cs) root' (c ∷ name) q f h e

-- How `insert_at` goes into a part: the child that it enters, and what becomes of it.
pub record Step (root root' : FolderNode) (part : Str) (parts : List Str) (last : Option Str)
    : Type 0 where
  pub old : FolderNode
  pub new : FolderNode
  pub entered : enter (get_child part (children_of root)) ≡ ok old
  pub inserted : insert_at old parts last ≡ ok new
  pub others :
      (q : Str)
      → get_child q (children_of root')
        ≡ (if str_eq part q then some (TreeNode.folder new) else get_child q (children_of root))

pub insert_at-Step :
    (root root' : FolderNode) (part : Str) (parts : List Str) (last : Option Str)
    → insert_at root (part ∷ parts) last ≡ ok root'
    → Step root root' part parts last
unfolding insert_at
insert_at-Step (node meta cs) root' part parts last h =
    elim (Result-cases (enter (get_child part cs))) [
      | inr (x, e) ↦ cc (rw (e, insert_at) at h)
      | inl (f, e) ↦ elim (Result-cases (insert_at f parts last)) [
        | inr (x, i) ↦ cc (rw (e, i, insert_at) at h)
        | inl (f', i) ↦
            let same : root' ≡ node meta (put_child part (TreeNode.folder f') cs) =
              sym (ok-injective (rw (e, i, insert_at) at h)) in
            record {
              old = f;
              new = f';
              entered = e;
              inserted = i;
              others = λ q. rw same (get_child-put_child q part (TreeNode.folder f') cs);
            }
      ]
    ]

pub insert_at-keeps :
    (root root' : FolderNode) (parts : List Str) (last : Option Str) (qs : List Str)
    → insert_at root parts last ≡ ok root'
    → IsFolder root qs
    → IsFolder root' qs
unfolding insert_at
insert_at-keeps root root' parts last [] h f = unfold node_at in refl
insert_at-keeps root root' [] last (q ∷ qs) h f =
    let (g, e, fg) = IsFolder-first root q qs f in
    first-IsFolder root' g q qs (put_stream-keeps root root' last q g h e) fg
insert_at-keeps root root' (part ∷ parts) last (q ∷ qs) h f =
    let (g, e, fg) = IsFolder-first root q qs f in
    let s = insert_at-Step root root' part parts last h in
    elim (Bool-cases (str_eq part q)) [
      | inl same ↦
          let entered : s.old ≡ g = ground (arith, s.entered, e, (str_eq_iff part q).0 same) in
          first-IsFolder root' s.new q qs (ap as_folder (rw same at (s.others q))) (
            insert_at-keeps s.old s.new parts last qs s.inserted
              (subst (λ (x : FolderNode). IsFolder x qs) (sym entered) fg))
      | inr other ↦ first-IsFolder root' g q qs (ap as_folder (rw other at (s.others q)) ∙ e) fg
    ]

pub insert_at-makes :
    (root root' : FolderNode) (parts : List Str) (last : Option Str)
    → insert_at root parts last ≡ ok root'
    → IsFolder root' parts
insert_at-makes root root' [] last h = unfold node_at in refl
insert_at-makes root root' (part ∷ parts) last h =
    let s = insert_at-Step root root' part parts last h in
    first-IsFolder root' s.new part parts
      (ap as_folder (rw ((str_eq_iff part part).1 refl) at (s.others part)))
      (insert_at-makes s.old s.new parts last s.inserted)
