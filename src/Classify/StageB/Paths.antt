-- ===== src/Classify/StageB/Paths.antt =====
-- src/classify.rs, src/zip_tree.rs: the encrypted entries are streams of the archive's own tree.
use odf_crypto.Prelude.{
  Bool, Option, none, some, List, [], ◌∷◌, sym, ◌∙◌, subst, Str, is_empty, All, All-append,
  Bool-cases, Option-cases, inl, inr, Result, ok, err, >>=-ok, Returns, Returns-ok, of_Returns,
  Result-cases, ok-injective,
}
use odf_crypto.Types.{PropertyBag, EntryEncryption, Classification}
use odf_crypto.Classify.Rows.{accept_row}
use odf_crypto.Classify.Rows.Checksums.{accept_row-IsEntryOf}
use odf_crypto.Classify.StageB.{
  Scan, start_scan, note_bag, add_entry, scan_found, scan_stream, scan_resolved, scan_bag,
  scan_bags, check_mimetype, conclude, stage_b,
}
use odf_crypto.ZipTree.Node.{FolderNode, ResolvedKind, Resolved, StreamAsFolder}
use odf_crypto.ZipTree.Insert.{FolderTree}
use odf_crypto.ZipTree.Resolve.{resolve, set_folder_meta, mark_from_manifest}
use odf_crypto.ZipTree.Resolve.Sound.{IsCached, Denotes, IsAnswer, resolve-Answers}
use odf_crypto.ZipTree.Resolve.Shape.{
  SameShape, SameShape-refl, SameShape-trans, set_folder_meta-SameShape,
  mark_from_manifest-SameShape,
}

-- The entry is a stream of the tree, and its path is that stream's path.
abbrev pub IsMember : FolderNode → EntryEncryption → Type 0
IsMember root e = Denotes root ResolvedKind.stream e.path

-- The scan keeps the tree's shape and its cache sound, and its entries are streams of that tree.
record PathInv (root : FolderNode) (s : Scan) : Type 0 where
  shape : SameShape root s.tree.root
  cached : IsCached s.tree
  members : All (IsMember root) s.encrypted_entries

Denotes-SameShape :
    (a b : FolderNode) (path : Str)
    → SameShape a b
    → Denotes b ResolvedKind.stream path
    → Denotes a ResolvedKind.stream path
Denotes-SameShape a b path h (parts, name, k, p) = (parts, name, sym (h.kinds parts name) ∙ k, p)

reshaped-IsCached :
    (t : FolderTree) (root : FolderNode)
    → SameShape t.root root
    → IsCached t
    → IsCached (record t { root = root })
reshaped-IsCached t root h c dir parts found = h.folders parts ∙ c dir parts found

module _ (root : FolderNode) where
  note_bag-PathInv : (s : Scan) (bag : PropertyBag) → PathInv root s → PathInv root (note_bag s bag)
  unfolding note_bag
  note_bag-PathInv s bag h = elim (Option-cases bag.key_info) [
    | inl e ↦ rw (e, note_bag) (record { shape = h.shape; cached = h.cached; members = h.members })
    | inr (k, e) ↦
        rw (e, note_bag) (record { shape = h.shape; cached = h.cached; members = h.members })
  ]

  marked-PathInv :
      (s : Scan) (path : Str) (mt : Option Str)
      → PathInv root s
      → PathInv root (record s { tree = mark_from_manifest s.tree path mt })
  marked-PathInv s path mt h =
      let shape = mark_from_manifest-SameShape s.tree path mt in
      record {
        shape = SameShape-trans h.shape shape;
        cached = unfold mark_from_manifest in reshaped-IsCached s.tree _ shape h.cached;
        members = h.members;
      }

  scan_stream-PathInv :
      (s : Scan) (bag : PropertyBag) (path : Str)
      → Denotes root ResolvedKind.stream path
      → PathInv root s
      → PathInv root (scan_stream s bag path)
  unfolding scan_stream
  scan_stream-PathInv s bag path d h =
      let m = marked-PathInv s path bag.media_type h in
      elim (Option-cases (accept_row bag s.key_info path)) [
        | inl e ↦
            rw (e, scan_stream) (record { shape = m.shape; cached = m.cached; members = m.members })
        | inr (entry, e) ↦
            let path_is = (accept_row-IsEntryOf bag s.key_info path entry e).path_is in
            let mine : IsMember root entry =
              subst (λ (p : Str). Denotes root ResolvedKind.stream p) (sym path_is) d in
            rw (e, scan_stream)
              (unfold add_entry in
                record {
                  shape = m.shape;
                  cached = m.cached;
                  members =
                      All-append (IsMember root) s.encrypted_entries (entry ∷ []) h.members
                        (mine, tt);
                })
      ]

  scan_found-PathInv :
      (s : Scan) (bag : PropertyBag) (found : Result StreamAsFolder (Option Resolved))
      → IsAnswer s.tree.root found
      → PathInv root s
      → Returns (PathInv root) (scan_found s bag found)
  unfolding scan_found scan_resolved
  scan_found-PathInv s bag (err e) a h = tt
  scan_found-PathInv s bag (ok none) a h = h
  scan_found-PathInv s bag (ok (some r)) a h = by_kind r.kind a
    where
      by_kind :
          (kind : ResolvedKind)
          → Denotes s.tree.root kind r.tree_path
          → PathInv root (scan_resolved s bag kind r.tree_path)
      by_kind ResolvedKind.stream d =
          scan_stream-PathInv s bag r.tree_path
            (Denotes-SameShape root s.tree.root r.tree_path h.shape d) h
      by_kind ResolvedKind.folder d =
          let shape = set_folder_meta-SameShape s.tree r.tree_path bag.media_type bag.version in
          record {
            shape = SameShape-trans h.shape shape;
            cached = unfold set_folder_meta in reshaped-IsCached s.tree _ shape h.cached;
            members = h.members;
          }

  scan_bag-PathInv :
      (s : Scan) (bag : PropertyBag) → PathInv root s → Returns (PathInv root) (scan_bag s bag)
  unfolding scan_bag
  scan_bag-PathInv s bag h =
      let noted = note_bag s bag in
      let n = note_bag-PathInv s bag h in
      let out = resolve noted.tree bag.full_path in
      let a = resolve-Answers noted.tree bag.full_path n.cached in
      elim (Bool-cases (is_empty bag.full_path)) [
        | inl e ↦ rw e n
        | inr e ↦ rw e (
            scan_found-PathInv (record noted { tree = out.0 }) bag out.1
              (subst (λ (x : FolderNode). IsAnswer x out.1) (sym a.same_root) a.answer)
              (record {
                shape = subst (λ (x : FolderNode). SameShape root x) (sym a.same_root) n.shape;
                cached = a.cached;
                members = n.members;
              }))
      ]

  scan_bags-PathInv :
      (s : Scan) (bags : List PropertyBag)
      → PathInv root s
      → Returns (PathInv root) (scan_bags s bags)
  unfolding scan_bags
  scan_bags-PathInv s [] h = h
  scan_bags-PathInv s (bag ∷ bags) h = elim (Result-cases (scan_bag s bag)) [
    | inl (t, e) ↦
        rw (e, scan_bags)
          (scan_bags-PathInv t bags
            (Returns-ok (PathInv root) (scan_bag s bag) (scan_bag-PathInv s bag h) e))
    | inr (x, e) ↦ rw (e, scan_bags) tt
  ]

-- Where the tree's cache is sound, as `from_zip_names` makes it, every encrypted entry that
-- `stage_b` returns is a stream of that tree, and its path is that stream's path.
pub stage_b-IsMember :
    (bags : List PropertyBag) (tree : FolderTree) (zip_has_encrypted_package : Bool)
    (mimetype : Option Str)
    → IsCached tree
    → Returns
        (λ class. All (IsMember tree.root) class.encrypted_entries)
        (stage_b bags tree zip_has_encrypted_package mimetype)
unfolding stage_b
stage_b-IsMember bags tree zip_has_encrypted_package mimetype h =
    of_Returns _ (stage_b bags tree zip_has_encrypted_package mimetype) λ class e.
      let (s, rest, es) = >>=-ok (scan_bags (start_scan tree) bags) _ e in
      let (tree', last, et) =
        >>=-ok (check_mimetype s.tree zip_has_encrypted_package s.o_first_version mimetype) _
          rest in
      let start : PathInv tree.root (start_scan tree) = record {
        shape = SameShape-refl tree.root;
        cached = h;
        members = tt;
      } in
      let inv =
        Returns-ok (PathInv tree.root) (scan_bags (start_scan tree) bags)
          (scan_bags-PathInv tree.root (start_scan tree) bags start) es in
      subst (λ (c : Classification). All (IsMember tree.root) c.encrypted_entries)
        (ok-injective last) (unfold conclude in inv.members)
