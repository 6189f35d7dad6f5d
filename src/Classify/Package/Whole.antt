-- ===== src/Classify/Package/Whole.antt =====
-- src/classify.rs, src/types.rs: what `classify` promises of the classification that it returns.
use odf_crypto.Prelude.{
  Bool, true, false, Option, none, some, List, [], ◌∷◌, ◌≡◌, ◌∙◌, refl, ap, arith, subst, Str,
  Bytes, codes, is_empty, is_some, any, find, >>=-ok, ok-injective, Returns, Returns-ok, of_Returns,
}
use odf_crypto.Types.{Classification, EntryEncryption, is_wholesome, is_plain}
use odf_crypto.Manifest.Parse.{XmlEvent, parse_manifest}
use odf_crypto.Classify.Members.{Archive, collect_members, read_named_member, read_mimetype}
use odf_crypto.Classify.StageB.{stage_b, encrypted_package}
use odf_crypto.Classify.StageB.Modes.{IsConsistent, stage_b-IsConsistent, mode_for, has_path}
use odf_crypto.Classify.Package.{
  check_stored_data_descriptors, classify_archive, classify_latched, classify_reader, wholesome_row,
  open_tree, require_manifest,
}
use odf_crypto.ZipTree.Resolve.{root_has_entry}

find-any {ℓ} : {A : Type ℓ} (p : A → Bool) (xs : List A) → is_some (find p xs) ≡ any p xs
unfolding find any
find-any p [] = refl
find-any p (x ∷ xs) = ground (arith, find-any p xs)

wholesome_row-exact :
    (class : Classification)
    → IsConsistent class
    → is_some (wholesome_row class) ≡ is_wholesome class.mode
unfolding wholesome_row
wholesome_row-exact class h =
    ground (arith, h.mode, find-any (has_path encrypted_package) class.encrypted_entries)

is_plain-mode_for :
    (z : Bool) (entries : List EntryEncryption) → is_plain (mode_for z entries) ≡ is_empty entries
unfolding any
is_plain-mode_for true [] = refl
is_plain-mode_for false [] = refl
is_plain-mode_for z (e ∷ entries) = ground arith

-- What a caller may rely on in a classification.
pub record IsSound (class : Classification) : Type 0 where
  pub consistent : IsConsistent class
  pub wholesome_has_row : is_some (wholesome_row class) ≡ is_wholesome class.mode
  pub plain_has_none : is_plain class.mode ≡ is_empty class.encrypted_entries

IsConsistent-IsSound : (class : Classification) → IsConsistent class → IsSound class
IsConsistent-IsSound class h = record {
  consistent = h;
  wholesome_has_row = wholesome_row-exact class h;
  plain_has_none =
      ap is_plain h.mode
      ∙ is_plain-mode_for class.zip_has_encrypted_package class.encrypted_entries;
}

module _ (from_utf8_lossy : Bytes → Str) (reader : Bytes → List XmlEvent) where
  classify_archive-IsSound :
      (archive : Archive) → Returns IsSound (classify_archive from_utf8_lossy reader archive)
  unfolding classify_archive
  classify_archive-IsSound archive =
      of_Returns IsSound (classify_archive from_utf8_lossy reader archive) λ class e.
        let (members, after_members, _) = >>=-ok (collect_members from_utf8_lossy archive) _ e in
        let (tree, after_tree, _) = >>=-ok (open_tree members) _ after_members in
        let (found, after_found, _) =
          >>=-ok (read_named_member archive members (codes "META-INF/manifest.xml")) _ after_tree in
        let (xml, after_xml, _) = >>=-ok (require_manifest found) _ after_found in
        let (mimetype, after_mimetype, _) =
          >>=-ok (read_mimetype from_utf8_lossy archive members tree) _ after_xml in
        let (class', after_stage, staged) =
          >>=-ok
            (stage_b (parse_manifest reader xml) tree (root_has_entry tree encrypted_package)
              mimetype)
            _ after_mimetype in
        let (_, last, _) = >>=-ok (check_stored_data_descriptors members class') _ after_stage in
        let consistent = stage_b-IsConsistent (parse_manifest reader xml) tree _ mimetype in
        subst IsSound (ok-injective last)
          (IsConsistent-IsSound class' (Returns-ok IsConsistent _ consistent staged))

  -- Whatever the archive, and whatever the reader's latch holds, a classification that `classify`
  -- returns is consistent; it is wholesome exactly when `wholesome_row` finds its row, and plain
  -- exactly when it has no encrypted entry.
  pub classify_reader-IsSound :
      (latched : Option Str) (opened : Option Archive)
      → Returns IsSound (classify_reader from_utf8_lossy reader latched opened)
  unfolding classify_reader classify_latched
  classify_reader-IsSound (some error) opened = tt
  classify_reader-IsSound none none = tt
  classify_reader-IsSound none (some archive) = classify_archive-IsSound archive
