-- ===== src/ZipTree/Unexpected.antt =====
-- src/zip_tree.rs: `look_unexpected`, the streams that an ODF 1.2 package must not hold.
pub mod Exact
use odf_crypto.Prelude.{
  Bool, false, not, ◌&&◌, ◌||◌, [], ◌∷◌, ◌++◌, Str, codes, str_eq, if◌then◌else◌, is_empty,
  contains_str,
}
use odf_crypto.ZipTree.Node.{FolderNode, node, TreeNode, Children, nil, cons}
use odf_crypto.ZipTree.Insert.{FolderTree}

abbrev pub meta_inf : Str
meta_inf = codes "META-INF/"

-- The test at a folder, before its own children are looked at.
unfoldable pub unexpected_folder : Str → Str → Bool → Bool
unexpected_folder path short is_wholesome =
    str_eq path meta_inf || (is_wholesome && not (str_eq short (codes "META-INF")))

unfoldable pub unexpected_stream : Str → Str → Bool → Bool → Bool
unexpected_stream path short from_manifest is_wholesome =
    if str_eq path meta_inf
    then not (str_eq short (codes "manifest.xml")) && not (contains_str (codes "signatures") short)
    else (is_wholesome
        && not (str_eq short (codes "mimetype"))
        && not (str_eq short (codes "encrypted-package")))
      || (not from_manifest && (not (is_empty path) || not (str_eq short (codes "mimetype"))))

unfoldable mutual
  pub look_unexpected : FolderNode → Str → Bool → Bool
  look_unexpected (node meta cs) path is_wholesome = look_children cs path is_wholesome

  pub look_children : Children → Str → Bool → Bool
  look_children nil path is_wholesome = false
  look_children (cons short t cs) path is_wholesome =
      look_node t path short is_wholesome || look_children cs path is_wholesome

  pub look_node : TreeNode → Str → Str → Bool → Bool
  look_node (TreeNode.folder child) path short is_wholesome =
      unexpected_folder path short is_wholesome
      || look_unexpected child (path ++ short ++ b'/' ∷ []) is_wholesome
  look_node (TreeNode.stream from_manifest media_type) path short is_wholesome =
      unexpected_stream path short from_manifest is_wholesome

unfoldable pub has_unexpected_odf12_streams : FolderTree → Bool → Bool
has_unexpected_odf12_streams t is_wholesome = look_unexpected t.root [] is_wholesome
