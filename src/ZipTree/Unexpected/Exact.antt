-- ===== src/ZipTree/Unexpected/Exact.antt =====
-- src/zip_tree.rs: `look_unexpected` against a relation that names the node it finds.
use odf_crypto.Prelude.{
  Bool, true, false, not, ◌&&◌, Option, [], ◌∷◌, ◌++◌, ◌≡◌, ◌≢◌, ◌↔◌, ◌⊎◌, refl, arith, Str, codes,
  str_eq, str_eq_iff, is_empty, contains_str, Bool-cases, inl, inr,
}
use odf_crypto.ZipTree.Node.{FolderNode, FolderMeta, node, TreeNode, Children, nil, cons}
use odf_crypto.ZipTree.Unexpected.{
  meta_inf, unexpected_folder, unexpected_stream, look_unexpected, look_children, look_node,
}

-- A child of the name.
pub data IsChild (short : Str) (t : TreeNode) : Children → Type 0 where
  here : {cs : Children} → IsChild short t (cons short t cs)
  later :
      {s : Str} {u : TreeNode} {cs : Children} → IsChild short t cs → IsChild short t (cons s u cs)

-- What makes a stream unexpected at the path: in META-INF it is neither the manifest nor has
-- signatures in its name; elsewhere in a wholesome package it is neither the media type nor the
-- package; and elsewhere it has no row, and is not the media type at the root.
pub data UnexpectedStream (w m : Bool) (path short : Str) : Type 0 where
  in_meta_inf :
      path ≡ codes "META-INF/"
      → short ≢ codes "manifest.xml"
      → contains_str (codes "signatures") short ≡ false
      → UnexpectedStream w m path short
  beside_package :
      path ≢ codes "META-INF/"
      → w ≡ true
      → short ≢ codes "mimetype"
      → short ≢ codes "encrypted-package"
      → UnexpectedStream w m path short
  without_row :
      path ≢ codes "META-INF/"
      → m ≡ false
      → (path ≢ []) ⊎ (short ≢ codes "mimetype")
      → UnexpectedStream w m path short

-- What makes a folder unexpected: it is in META-INF, or it is another one in a wholesome package.
abbrev pub UnexpectedFolder : Bool → Str → Str → Type 0
UnexpectedFolder w path short =
    (path ≡ codes "META-INF/") ⊎ ((w ≡ true) × (short ≢ codes "META-INF"))

differs : (s t : Str) → (str_eq s t ≡ false) ↔ (s ≢ t)
differs s t = (
  λ h e. absurd (cc (h, (str_eq_iff s t).1 e)),
  λ h. elim (Bool-cases (str_eq s t)) [ inl e ↦ absurd (h ((str_eq_iff s t).0 e)) | inr e ↦ e ],
)

is_empty-differs : (s : Str) → (is_empty s ≡ false) ↔ (s ≢ [])
is_empty-differs [] = (λ h. cc, λ h. absurd (h refl))
is_empty-differs (c ∷ s) = (λ h e. cc, λ h. refl)

unexpected_folder-exact :
    (w : Bool) (path short : Str)
    → (unexpected_folder path short w ≡ true) ↔ UnexpectedFolder w path short
unfolding unexpected_folder
unexpected_folder-exact w path short =
    let here = str_eq_iff path meta_inf in
    let other = differs short (codes "META-INF") in
    (
      λ h. elim (Bool-cases (str_eq path meta_inf)) [
        | inl e ↦ inl (here.0 e)
        | inr e ↦ inr (ground arith, other.0 (ground arith))
      ],
      λ u. elim u [
        | inl e ↦ let k = here.1 e in ground arith
        | inr p ↦ let k = other.1 (p.1) in let v = p.0 in ground arith
      ],
    )

unexpected_stream-holds :
    (w m : Bool) (path short : Str)
    → unexpected_stream path short m w ≡ true
    → UnexpectedStream w m path short
unfolding unexpected_stream
unexpected_stream-holds w m path short h =
    let manifest = differs short (codes "manifest.xml") in
    let mime = differs short (codes "mimetype") in
    let sealed = differs short (codes "encrypted-package") in
    elim (Bool-cases (str_eq path meta_inf)) [
      | inl e ↦
          in_meta_inf ((str_eq_iff path meta_inf).0 e) (manifest.0 (ground arith)) (ground arith)
      | inr e ↦
          let out = (differs path meta_inf).0 e in
          elim (Bool-cases (
            w
            && not (str_eq short (codes "mimetype"))
            && not (str_eq short (codes "encrypted-package")))) [
              | inl b ↦
                  beside_package out (ground arith) (mime.0 (ground arith))
                    (sealed.0 (ground arith))
              | inr b ↦ without_row out (ground arith) (elim (Bool-cases (is_empty path)) [
                | inl root ↦ inr (mime.0 (ground arith))
                | inr below ↦ inl ((is_empty-differs path).0 below)
              ])
            ]
    ]

holds-unexpected_stream :
    {w m : Bool} {path short : Str}
    → UnexpectedStream w m path short
    → unexpected_stream path short m w ≡ true
unfolding unexpected_stream
holds-unexpected_stream {path = path} {short = short} (in_meta_inf e no_manifest plain_name) =
    let a = (str_eq_iff path meta_inf).1 e in
    let b = (differs short (codes "manifest.xml")).1 no_manifest in ground (arith, plain_name)
holds-unexpected_stream {path = path} {short = short} (beside_package out e no_mime no_package) =
    let a = (differs path meta_inf).1 out in
    let b = (differs short (codes "mimetype")).1 no_mime in
    let c = (differs short (codes "encrypted-package")).1 no_package in ground (arith, e)
holds-unexpected_stream {path = path} {short = short} (without_row out e (inl below)) =
    let a = (differs path meta_inf).1 out in
    let b = (is_empty-differs path).1 below in ground (arith, e)
holds-unexpected_stream {path = path} {short = short} (without_row out e (inr no_mime)) =
    let a = (differs path meta_inf).1 out in
    let b = (differs short (codes "mimetype")).1 no_mime in ground (arith, e)

-- A child is unexpected at the path, or one below a child folder is.
pub data IsUnexpected (w : Bool) : Children → Str → Type 0 where
  at_stream :
      {cs : Children} {path short : Str} {m : Bool} {mt : Option Str}
      → IsChild short (TreeNode.stream m mt) cs
      → UnexpectedStream w m path short
      → IsUnexpected w cs path
  at_folder :
      {cs : Children} {path short : Str} {f : FolderNode}
      → IsChild short (TreeNode.folder f) cs
      → UnexpectedFolder w path short
      → IsUnexpected w cs path
  inside :
      {cs below : Children} {path short : Str} {meta : FolderMeta}
      → IsChild short (TreeNode.folder (node meta below)) cs
      → IsUnexpected w below (path ++ short ++ b'/' ∷ [])
      → IsUnexpected w cs path

weaken :
    {w : Bool} {cs : Children} {path s : Str} {u : TreeNode}
    → IsUnexpected w cs path
    → IsUnexpected w (cons s u cs) path
weaken (at_stream c h) = at_stream (later c) h
weaken (at_folder c h) = at_folder (later c) h
weaken (inside c h) = inside (later c) h

child-look :
    (w : Bool) (path : Str) {short : Str} {t : TreeNode} {cs : Children}
    → IsChild short t cs
    → look_node t path short w ≡ true
    → look_children cs path w ≡ true
unfolding look_children
child-look w path here h = ground arith
child-look w path (later c) h = ground (arith, child-look w path c h)

IsUnexpected-look :
    {w : Bool} {cs : Children} {path : Str}
    → IsUnexpected w cs path
    → look_children cs path w ≡ true
unfolding look_node look_unexpected
IsUnexpected-look (at_stream c h) = child-look _ _ c (holds-unexpected_stream h)
IsUnexpected-look (at_folder c h) =
    child-look _ _ c (let e = (unexpected_folder-exact _ _ _).1 h in ground (arith, e))
IsUnexpected-look (inside c h) = child-look _ _ c (ground (arith, IsUnexpected-look h))

look-IsUnexpected :
    (w : Bool) (cs : Children) (path : Str)
    → look_children cs path w ≡ true
    → IsUnexpected w cs path
unfolding look_children look_node look_unexpected
look-IsUnexpected w nil path h = cc
look-IsUnexpected w (cons short (TreeNode.stream m mt) cs) path h =
    elim (Bool-cases (unexpected_stream path short m w)) [
      | inl e ↦ at_stream here (unexpected_stream-holds w m path short e)
      | inr e ↦ weaken (look-IsUnexpected w cs path (ground arith))
    ]
look-IsUnexpected w (cons short (TreeNode.folder (node meta below)) cs) path h =
    elim (Bool-cases (unexpected_folder path short w)) [
      | inl e ↦ at_folder here ((unexpected_folder-exact w path short).0 e)
      | inr e ↦ elim (Bool-cases (look_children below (path ++ short ++ b'/' ∷ []) w)) [
        | inl i ↦ inside here (look-IsUnexpected w below (path ++ short ++ b'/' ∷ []) i)
        | inr i ↦ weaken (look-IsUnexpected w cs path (ground arith))
      ]
    ]

-- A folder has unexpected streams exactly when it holds, at any depth, a stream or a folder that
-- LibreOffice does not expect there: in META-INF a folder, or a stream that is neither the manifest
-- nor has signatures in its name; elsewhere, in a wholesome package, a folder but META-INF or a
-- stream but the media type and the package; and elsewhere a stream without a row, but the media
-- type at the root.
pub look_unexpected-exact :
    (meta : FolderMeta) (cs : Children) (path : Str) (w : Bool)
    → (look_unexpected (node meta cs) path w ≡ true) ↔ IsUnexpected w cs path
unfolding look_unexpected
look_unexpected-exact meta cs path w = (look-IsUnexpected w cs path, λ u. IsUnexpected-look u)
