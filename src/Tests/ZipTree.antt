-- ===== src/Tests/ZipTree.antt =====
-- src/zip_tree.rs and the names of members on concrete input.
use odf_crypto.Prelude.{
  none, ok, arith, rsplit_once, ends_with, trim_end_matches, contains_key, insert, remove, ◌≡◌, ◌↔◌,
  false, true, refl, List, [], ◌∷◌, Str, codes, str_eq, get, split, All, Returns, Bool-cases, subst,
  inl, inr,
}
use odf_crypto.ZipTree.Node.{
  FolderMeta, Children, node, cons, nil, TreeNode, get_child, put_child, node_at,
}
use odf_crypto.ZipTree.Unexpected.{look_unexpected, unexpected_stream}
use odf_crypto.ZipTree.Unexpected.Exact.{IsUnexpected, look_unexpected-exact}
use odf_crypto.ZipTree.Insert.{
  FolderTree, from_zip_names, insert_names, insert_path, insert_at, leading_parts, member_parts,
  seed_recent, walk_containing_folder, containing_folder,
}
use odf_crypto.ZipTree.Insert.Cached.{from_zip_names-IsCached}
use odf_crypto.ZipTree.Insert.Members.{IsStream, from_zip_names-Holds}
use odf_crypto.ZipTree.Resolve.{resolve}
use odf_crypto.ZipTree.Resolve.Sound.{IsFolder, IsCached, Answers, resolve-Answers}
use odf_crypto.Classify.Names.{is_valid_zip_entry_file_name, name_from, name_char, is_forbidden}
use odf_crypto.Classify.Members.{collect_members}
use odf_crypto.Classify.Members.Listing.{IsListed, AreDistinct, collect_members_listing}
use odf_crypto.Tests.Samples.{pictures, pictures_root, pictures_tree, archive}

abbrev names : List Str
names = codes "mimetype" ∷ codes "Pictures/" ∷ codes "Pictures/a/b.png" ∷ []

from_zip_names-IsCached_example : Returns IsCached (from_zip_names names)
from_zip_names-IsCached_example = from_zip_names-IsCached names

abbrev a_tree : FolderTree
a_tree = record {
  root =
      node (record { media_type = none; version = none })
        (cons (codes "mimetype") (TreeNode.stream false none) (
          cons (codes "Pictures")
            (TreeNode.folder (
              node (record { media_type = none; version = none })
                (cons (codes "a")
                  (TreeNode.folder (
                    node (record { media_type = none; version = none })
                      (cons (codes "b.png") (TreeNode.stream false none) nil)))
                  nil)))
            nil));
  recent =
      (codes "Pictures/a", codes "Pictures" ∷ codes "a" ∷ [])
      ∷ (codes "Pictures", codes "Pictures" ∷ [])
      ∷ [];
}

a_tree_is_made : from_zip_names names ≡ ok a_tree
unfolding from_zip_names insert_names insert_path insert_at leading_parts member_parts seed_recent
    walk_containing_folder containing_folder put_child get_child str_eq split rsplit_once ends_with
    trim_end_matches contains_key insert remove get
a_tree_is_made = refl

from_zip_names-Holds_example :
    IsStream a_tree.root (codes "Pictures" ∷ codes "a" ∷ []) (codes "b.png")
from_zip_names-Holds_example =
    from_zip_names-Holds names a_tree (codes "Pictures" ∷ codes "a" ∷ []) (codes "b.png")
      a_tree_is_made (ground arith) (ground arith) (inr (inr (inl refl)))

pictures_tree-IsCached : IsCached pictures_tree
unfolding get node_at get_child str_eq
pictures_tree-IsCached dir parts found = elim (Bool-cases (str_eq pictures dir)) [
  | inl e ↦
      let same : pictures ∷ [] ≡ parts = cc (rw (e, str_eq) at found) in
      subst (λ (p : List Str). IsFolder pictures_root p) same refl
  | inr e ↦ cc (rw (e, str_eq) at found)
]

resolve-Answers_example : Answers pictures_tree (resolve pictures_tree (codes "Pictures/a.png"))
resolve-Answers_example =
    resolve-Answers pictures_tree (codes "Pictures/a.png") pictures_tree-IsCached

collect_members_listing_example :
    Returns
      (λ members. All (IsListed (λ bytes. bytes) 0 archive) members × AreDistinct members)
      (collect_members (λ bytes. bytes) archive)
collect_members_listing_example = collect_members_listing (λ bytes. bytes) archive

abbrev plain_meta : FolderMeta
plain_meta = record { media_type = none; version = none }

abbrev unlisted : Children
unlisted =
    cons (codes "mimetype") (TreeNode.stream false none)
      (cons pictures (TreeNode.stream false none) nil)

look_unexpected-exact_example :
    (look_unexpected (node plain_meta unlisted) [] false ≡ true) ↔ IsUnexpected false unlisted []
look_unexpected-exact_example = look_unexpected-exact plain_meta unlisted [] false

look_unexpected-unlisted :
    (look_unexpected (node plain_meta unlisted) [] false ≡ true)
    × (look_unexpected
          (node plain_meta (cons (codes "mimetype") (TreeNode.stream false none) nil))
          []
          false
        ≡ false)
unfolding look_unexpected unexpected_stream str_eq
look_unexpected-unlisted = (refl, refl)

name-verdicts :
    (is_valid_zip_entry_file_name (codes "a/../b") ≡ false)
    × (is_valid_zip_entry_file_name (codes "a/.../b") ≡ true)
    × (is_valid_zip_entry_file_name (codes "/a") ≡ false)
    × (is_valid_zip_entry_file_name (codes "a:b") ≡ false)
unfolding is_valid_zip_entry_file_name name_from name_char is_forbidden
name-verdicts = (refl, refl, refl, refl)
