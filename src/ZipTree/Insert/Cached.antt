-- ===== src/ZipTree/Insert/Cached.antt =====
-- src/zip_tree.rs: the folder cache that `from_zip_names` makes.
use odf_crypto.Prelude.{
  not, ◌&&◌, some, List, [], ◌∷◌, ◌≡◌, subst, Str, str_eq, is_empty, get, insert, contains_key,
  split, rsplit_once, ok, Bool-cases, Option-cases, Result-cases, Returns, inl, inr, get-insert,
}
use odf_crypto.ZipTree.Node.{FolderNode, empty_folder}
use odf_crypto.ZipTree.Insert.{
  FolderTree, leading_parts, member_parts, insert_path, walk_containing_folder, seed_recent,
  insert_names, from_zip_names,
}
use odf_crypto.ZipTree.Insert.Folders.{insert_at-keeps, insert_at-makes}
use odf_crypto.ZipTree.Insert.Seeds.{walk_containing_folder-member_parts}
use odf_crypto.ZipTree.Resolve.Sound.{IsFolder, IsCached}

insert_path-keeps :
    (root root' : FolderNode) (name : Str) (qs : List Str)
    → insert_path root name ≡ ok root'
    → IsFolder root qs
    → IsFolder root' qs
unfolding insert_path
insert_path-keeps root root' name qs h f =
    insert_at-keeps root root' (leading_parts (split b'/' (member_parts name).0))
      (member_parts name).1 qs h f

insert_path-makes :
    (root root' : FolderNode) (name before last : Str)
    → insert_path root name ≡ ok root'
    → rsplit_once b'/' name ≡ some (before, last)
    → IsFolder root' (walk_containing_folder name)
unfolding insert_path
insert_path-makes root root' name before last h slash =
    rw (walk_containing_folder-member_parts name before last slash) (
      insert_at-makes root root' (leading_parts (split b'/' (member_parts name).0))
        (member_parts name).1 h)

grown-IsCached :
    (t : FolderTree) (root : FolderNode) (name : Str)
    → IsCached t
    → insert_path t.root name ≡ ok root
    → IsCached (record { root = root; recent = t.recent })
grown-IsCached t root name h i dir parts found =
    insert_path-keeps t.root root name parts i (h dir parts found)

seeded-IsCached :
    (t : FolderTree) (dir : Str) (parts : List Str)
    → IsCached t
    → IsFolder t.root parts
    → IsCached (record t { recent = insert dir parts t.recent })
seeded-IsCached t dir parts h f dir' parts' found =
    let at_dir' = get-insert dir' dir parts t.recent in
    elim (Bool-cases (str_eq dir dir')) [
      | inl e ↦ subst (λ (p : List Str). IsFolder t.root p) (cc (rw e at at_dir', found)) f
      | inr e ↦ h dir' parts' (cc (rw e at at_dir', found))
    ]

seed_recent-IsCached :
    (t : FolderTree) (root : FolderNode) (name : Str)
    → IsCached t
    → insert_path t.root name ≡ ok root
    → IsCached (record { root = root; recent = seed_recent t.recent name })
unfolding seed_recent
seed_recent-IsCached t root name h i =
    let grown = grown-IsCached t root name h i in
    elim (Option-cases (rsplit_once b'/' name)) [
      | inl e ↦ rw (e, seed_recent) grown
      | inr ((dir, last), e) ↦
          elim (Bool-cases (not (is_empty dir) && not (contains_key dir t.recent))) [
            | inr seen ↦ rw (e, seen, seed_recent) grown
            | inl fresh ↦
                rw (e, fresh, seed_recent)
                  (seeded-IsCached (record { root = root; recent = t.recent }) dir
                    (walk_containing_folder name) grown
                    (insert_path-makes t.root root name dir last i e))
          ]
    ]

insert_names-IsCached :
    (t : FolderTree) (names : List Str) → IsCached t → Returns IsCached (insert_names t names)
unfolding insert_names
insert_names-IsCached t [] h = h
insert_names-IsCached t (name ∷ names) h = elim (Result-cases (insert_path t.root name)) [
  | inr (x, e) ↦ rw (e, insert_names) tt
  | inl (root, e) ↦
      rw (e, insert_names)
        (insert_names-IsCached (record { root = root; recent = seed_recent t.recent name }) names
          (seed_recent-IsCached t root name h e))
]

-- Whatever the members' names, every folder that the tree of `from_zip_names` caches is in it.
pub from_zip_names-IsCached : (names : List Str) → Returns IsCached (from_zip_names names)
unfolding from_zip_names get
from_zip_names-IsCached names =
    insert_names-IsCached (record { root = empty_folder; recent = [] }) names
      (λ dir parts found. cc found)
