-- ===== src/ZipTree/Insert/Members.antt =====
-- src/zip_tree.rs: the tree of `from_zip_names` holds every member.
use odf_crypto.Prelude.{
  ℕ, false, Option, none, some, List, [], ◌∷◌, ◌≡◌, refl, sym, ap, ◌∙◌, subst, All, Str, str_eq,
  str_eq_iff, split, ok, Bool-cases, Option-cases, Result-cases, ok-injective, inl, inr, ◌⊎◌,
}
use odf_crypto.ZipTree.Node.{
  FolderNode, node, TreeNode, ResolvedKind, get_child, put_child, children_of, as_folder, node_at,
  kind_of, child_kind, empty_folder,
}
use odf_crypto.ZipTree.Insert.{
  FolderTree, enter, add_stream, put_stream, insert_at, leading_parts, member_parts, insert_path,
  seed_recent, insert_names, from_zip_names,
}
use odf_crypto.ZipTree.Insert.Folders.{
  get_child-put_child, put_stream-keeps, insert_at-Step, insert_at-keeps, insert_at-makes,
}
use odf_crypto.ZipTree.Insert.Paths.{IsPart, HasNoSlash, member_path, member_parts-member_path}
use odf_crypto.ZipTree.Resolve.Sound.{IsFolder}

abbrev pub IsStream : FolderNode → List Str → Str → Type 0
IsStream root parts name = child_kind root parts name ≡ some ResolvedKind.stream

IsStream-first :
    (root : FolderNode) (q : Str) (qs : List Str) (name : Str)
    → IsStream root (q ∷ qs) name
    → (f : FolderNode) × (as_folder (get_child q (children_of root)) ≡ some f) × IsStream f qs name
unfolding child_kind node_at
IsStream-first root q qs name h = elim (Option-cases (as_folder (get_child q (children_of root)))) [
  | inl e ↦ cc (rw (e, node_at, child_kind) at h)
  | inr (f, e) ↦ (f, e, rw (e, node_at, child_kind) at h)
]

first-IsStream :
    (root f : FolderNode) (q : Str) (qs : List Str) (name : Str)
    → as_folder (get_child q (children_of root)) ≡ some f
    → IsStream f qs name
    → IsStream root (q ∷ qs) name
unfolding child_kind node_at
first-IsStream root f q qs name e h = rw (e, node_at, child_kind) h

add_stream-stream :
    (root root' : FolderNode) (name : Str)
    → add_stream root name (get_child name (children_of root)) ≡ ok root'
    → (kind_of (get_child name (children_of root')) ≡ some ResolvedKind.stream)
      × ((q : Str)
          → kind_of (get_child q (children_of root)) ≡ some ResolvedKind.stream
          → kind_of (get_child q (children_of root')) ≡ some ResolvedKind.stream)
add_stream-stream (node meta cs) root' name h = elim (Option-cases (get_child name cs)) [
  | inr (TreeNode.folder g, taken) ↦ cc (rw taken at h)
  | inr (TreeNode.stream m mt, taken) ↦
      let same : root' ≡ node meta cs = sym (ok-injective (rw taken at h)) in
      rw same (ap kind_of taken, λ q e. e)
  | inl free ↦
      let same : root' ≡ node meta (put_child name (TreeNode.stream false none) cs) =
        sym (ok-injective (rw free at h)) in
      let later = λ (q : Str). get_child-put_child q name (TreeNode.stream false none) cs in
      rw same (
        ap kind_of (rw ((str_eq_iff name name).1 refl) at (later name)),
        λ q e. elim (Bool-cases (str_eq name q)) [
          | inl eq ↦ ap kind_of (rw eq at (later q))
          | inr ne ↦ ap kind_of (rw ne at (later q)) ∙ e
        ],
      )
]

put_stream-stream :
    (root root' : FolderNode) (c : ℕ) (name : Str)
    → put_stream root (some (c ∷ name)) ≡ ok root'
    → kind_of (get_child (c ∷ name) (children_of root')) ≡ some ResolvedKind.stream
put_stream-stream (node meta cs) root' c name h =
    (add_stream-stream (node meta cs) root' (c ∷ name) h).0

put_stream-keeps_stream :
    (root root' : FolderNode) (last : Option Str) (q : Str)
    → put_stream root last ≡ ok root'
    → kind_of (get_child q (children_of root)) ≡ some ResolvedKind.stream
    → kind_of (get_child q (children_of root')) ≡ some ResolvedKind.stream
put_stream-keeps_stream root root' none q h e = rw (sym (ok-injective h)) e
put_stream-keeps_stream root root' (some []) q h e = rw (sym (ok-injective h)) e
put_stream-keeps_stream (node meta cs) root' (some (c ∷ name)) q h e =
    (add_stream-stream (node meta cs) root' (c ∷ name) h).1 q e

-- A stream is not entered as a folder.
stream-enter :
    (child : Option TreeNode) (f : FolderNode)
    → kind_of child ≡ some ResolvedKind.stream
    → enter child ≡ ok f
    → ⊥
stream-enter none f h e = cc
stream-enter (some (TreeNode.folder g)) f h e = cc
stream-enter (some (TreeNode.stream m mt)) f h e = cc

entered_folder :
    (child : Option TreeNode) (f g : FolderNode)
    → as_folder child ≡ some f
    → enter child ≡ ok g
    → g ≡ f
entered_folder none f g h e = cc
entered_folder (some (TreeNode.folder x)) f g h e = cc
entered_folder (some (TreeNode.stream m mt)) f g h e = cc

insert_at-keeps_IsStream :
    (root root' : FolderNode) (parts : List Str) (last : Option Str) (qs : List Str) (name : Str)
    → insert_at root parts last ≡ ok root'
    → IsStream root qs name
    → IsStream root' qs name
unfolding insert_at child_kind node_at
insert_at-keeps_IsStream root root' [] last [] name h s =
    put_stream-keeps_stream root root' last name h s
insert_at-keeps_IsStream root root' [] last (q ∷ qs) name h s =
    let (g, e, sg) = IsStream-first root q qs name s in
    first-IsStream root' g q qs name (put_stream-keeps root root' last q g h e) sg
insert_at-keeps_IsStream root root' (part ∷ parts) last [] name h s =
    let i = insert_at-Step root root' part parts last h in
    elim (Bool-cases (str_eq part name)) [
      | inr other ↦ ap kind_of (rw other at (i.others name)) ∙ s
      | inl same ↦ absurd (
          stream-enter (get_child part (children_of root)) i.old
            (ap (λ (x : Str). kind_of (get_child x (children_of root)))
                ((str_eq_iff part name).0 same)
              ∙ s)
            i.entered)
    ]
insert_at-keeps_IsStream root root' (part ∷ parts) last (q ∷ qs) name h s =
    let (g, e, sg) = IsStream-first root q qs name s in
    let i = insert_at-Step root root' part parts last h in
    elim (Bool-cases (str_eq part q)) [
      | inr other ↦
          first-IsStream root' g q qs name (ap as_folder (rw other at (i.others q)) ∙ e) sg
      | inl same ↦
          let part_q : part ≡ q = (str_eq_iff part q).0 same in
          let entered : i.old ≡ g =
            entered_folder (get_child part (children_of root)) g i.old
              (ap (λ (x : Str). as_folder (get_child x (children_of root))) part_q ∙ e) i.entered in
          first-IsStream root' i.new q qs name (ap as_folder (rw same at (i.others q))) (
            insert_at-keeps_IsStream i.old i.new parts last qs name i.inserted
              (subst (λ (x : FolderNode). IsStream x qs name) (sym entered) sg))
    ]

insert_at-IsStream :
    (root root' : FolderNode) (parts : List Str) (c : ℕ) (name : Str)
    → insert_at root parts (some (c ∷ name)) ≡ ok root'
    → IsStream root' parts (c ∷ name)
unfolding insert_at child_kind node_at
insert_at-IsStream root root' [] c name h = put_stream-stream root root' c name h
insert_at-IsStream root root' (part ∷ parts) c name h =
    let i = insert_at-Step root root' part parts (some (c ∷ name)) h in
    first-IsStream root' i.new part parts (c ∷ name)
      (ap as_folder (rw ((str_eq_iff part part).1 refl) at (i.others part)))
      (insert_at-IsStream i.old i.new parts c name i.inserted)

-- What a member's folder parts and its last part ask of the tree.
abbrev pub HoldsAt : FolderNode → List Str → Option Str → Type 0
HoldsAt root parts none = IsFolder root parts
HoldsAt root parts (some []) = IsFolder root parts
HoldsAt root parts (some (c ∷ name)) = IsStream root parts (c ∷ name)

-- The member is in the tree: a stream in its folder, or for a name that ends in a slash the folder.
abbrev pub Holds : FolderNode → Str → Type 0
Holds root name =
    HoldsAt root (leading_parts (split b'/' (member_parts name).0)) (member_parts name).1

insert_at-HoldsAt :
    (root root' : FolderNode) (parts : List Str) (last : Option Str)
    → insert_at root parts last ≡ ok root'
    → HoldsAt root' parts last
insert_at-HoldsAt root root' parts none h = insert_at-makes root root' parts none h
insert_at-HoldsAt root root' parts (some []) h = insert_at-makes root root' parts (some []) h
insert_at-HoldsAt root root' parts (some (c ∷ name)) h =
    insert_at-IsStream root root' parts c name h

insert_at-keeps_HoldsAt :
    (root root' : FolderNode) (parts qs : List Str) (last other : Option Str)
    → insert_at root parts last ≡ ok root'
    → HoldsAt root qs other
    → HoldsAt root' qs other
insert_at-keeps_HoldsAt root root' parts qs last none h k =
    insert_at-keeps root root' parts last qs h k
insert_at-keeps_HoldsAt root root' parts qs last (some []) h k =
    insert_at-keeps root root' parts last qs h k
insert_at-keeps_HoldsAt root root' parts qs last (some (c ∷ name)) h k =
    insert_at-keeps_IsStream root root' parts last qs (c ∷ name) h k

-- The members inserted so far stay while the rest is inserted.
insert_names-keeps :
    (t t' : FolderTree) (names : List Str) (name : Str)
    → insert_names t names ≡ ok t'
    → Holds t.root name
    → Holds t'.root name
unfolding insert_names insert_path
insert_names-keeps t t' [] name h k =
    subst (λ (x : FolderTree). Holds x.root name) (ok-injective h) k
insert_names-keeps t t' (n ∷ names) name h k = elim (Result-cases (insert_path t.root n)) [
  | inr (x, e) ↦ cc (rw (e, insert_names) at h)
  | inl (root, e) ↦
      insert_names-keeps (record { root = root; recent = seed_recent t.recent n }) t' names name
        (rw (e, insert_names) at h)
        (insert_at-keeps_HoldsAt t.root root _ _ (member_parts n).1 (member_parts name).1 e k)
]

insert_names-Holds :
    (t t' : FolderTree) (names : List Str)
    → insert_names t names ≡ ok t'
    → All (Holds t'.root) names
unfolding insert_names insert_path
insert_names-Holds t t' [] h = tt
insert_names-Holds t t' (n ∷ names) h = elim (Result-cases (insert_path t.root n)) [
  | inr (x, e) ↦ cc (rw (e, insert_names) at h)
  | inl (root, e) ↦
      let rest = rw (e, insert_names) at h in
      let next : FolderTree = record { root = root; recent = seed_recent t.recent n } in
      (
        insert_names-keeps next t' names n rest
            (insert_at-HoldsAt t.root root _ (member_parts n).1 e),
        insert_names-Holds next t' names rest,
      )
]

abbrev pub IsListedIn : Str → List Str → Type 0
IsListedIn name [] = ⊥
IsListedIn name (n ∷ names) = (n ≡ name) ⊎ IsListedIn name names

listed :
    (P : Str → Type 0) (names : List Str) (name : Str)
    → All P names
    → IsListedIn name names
    → P name
listed P [] name h k = absurd k
listed P (n ∷ names) name h (inl e) = subst P e h.0
listed P (n ∷ names) name h (inr k) = listed P names name h.1 k

HoldsAt-last :
    (root : FolderNode) (dirs : List Str) (last : Str) (found : Option Str)
    → (found ≡ some last) ⊎ ((found ≡ none) × (last ≡ []))
    → HoldsAt root dirs found
    → HoldsAt root dirs (some last)
HoldsAt-last root dirs last found (inl e) h = subst (HoldsAt root dirs) e h
HoldsAt-last root dirs last found (inr (e, empty)) h =
    subst (λ (l : Str). HoldsAt root dirs (some l)) (sym empty) (subst (HoldsAt root dirs) e h)

-- Of the tree that `from_zip_names` returns, each member whose name is made of folders' names without
-- slashes, none of them empty, and a last part is a stream of that name in those folders; where the
-- last part is empty, so that the name ends in a slash, the folders are in the tree.
pub from_zip_names-Holds :
    (names : List Str) (t : FolderTree) (dirs : List Str) (last : Str)
    → from_zip_names names ≡ ok t
    → All IsPart dirs
    → HasNoSlash last
    → IsListedIn (member_path dirs last) names
    → HoldsAt t.root dirs (some last)
unfolding from_zip_names
from_zip_names-Holds names t dirs last e parts slashless listing =
    let holds =
      listed (Holds t.root) names (member_path dirs last)
        (insert_names-Holds (record { root = empty_folder; recent = [] }) t names e) listing in
    let (same, found) = member_parts-member_path dirs last parts slashless in
    HoldsAt-last t.root dirs last (member_parts (member_path dirs last)).1 found (
      subst (λ (ps : List Str). HoldsAt t.root ps (member_parts (member_path dirs last)).1) same
        holds)
