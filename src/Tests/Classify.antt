-- ===== src/Tests/Classify.antt =====
-- src/classify.rs on concrete input.
use odf_crypto.Prelude.{
  ◌≡◌, ◌≢◌, ◌↔◌, refl, true, false, none, some, [], ◌∷◌, codes, All, is_some, ok, err, Returns,
  str_eq, get, rsplit_once, split,
}
use odf_crypto.Types.{Classification, Mode}
use odf_crypto.Classify.Rows.{
  checksum_present_or_unneeded, checksum_of, password_kdf, password_entry, accept_row,
}
use odf_crypto.Classify.Rows.Checksums.{is_complete, accept_row-exact}
use odf_crypto.Classify.StageB.{
  stage_b, scan_bags, scan_bag, scan_found, note_bag, check_mimetype, conclude, mode_of,
  scan_resolved, scan_stream, add_entry, version_ge_12,
}
use odf_crypto.Classify.Names.{short_name}
use odf_crypto.ZipTree.Node.{get_child, put_child, nonempty_parts, mark_at}
use odf_crypto.ZipTree.Resolve.{resolve, root_meta, mark_from_manifest}
use odf_crypto.ZipTree.Unexpected.{has_unexpected_odf12_streams, look_unexpected, unexpected_stream}
use odf_crypto.Classify.StageB.Modes.{IsConsistent, stage_b-IsConsistent}
use odf_crypto.Classify.Members.{ZipMember}
use odf_crypto.Classify.Package.{check_stored_data_descriptors, descriptor_error, classify_reader}
use odf_crypto.Classify.Package.Descriptors.{DescriptorAllowed, check_descriptors_exact}
use odf_crypto.Classify.Package.Whole.{IsSound, classify_reader-IsSound}
use odf_crypto.Classify.StageB.Paths.{IsMember, stage_b-IsMember}
use odf_crypto.ZipTree.Resolve.Sound.{IsCached}
use odf_crypto.Tests.Samples.{gcm_row, gcm_entry, content_tree, archive, reader}

accept_row-exact_example :
    is_some (accept_row gcm_row true (codes "content.xml")) ≡ is_complete gcm_row true
accept_row-exact_example = accept_row-exact gcm_row true (codes "content.xml")

abbrev a_package : Classification
a_package = record {
  mode = Mode.per_entry;
  package_encrypted = true;
  has_non_encrypted_entries = false;
  odf_version = none;
  zip_has_encrypted_package = false;
  media_type = none;
  common = some gcm_entry;
  encrypted_entries = gcm_entry ∷ [];
  has_unexpected_streams = false;
  odf12_fatal = false;
  pgp_keys = [];
}

stage_b-row : stage_b (gcm_row ∷ []) content_tree false none ≡ ok a_package
unfolding stage_b scan_bags scan_bag scan_found resolve str_eq rsplit_once get_child note_bag
    check_mimetype conclude mode_of scan_resolved root_meta has_unexpected_odf12_streams scan_stream
    look_unexpected accept_row password_entry password_kdf checksum_present_or_unneeded add_entry
    short_name checksum_of mark_from_manifest mark_at nonempty_parts split put_child
    unexpected_stream version_ge_12
stage_b-row = refl

stage_b-IsConsistent_example : Returns IsConsistent (stage_b (gcm_row ∷ []) content_tree false none)
stage_b-IsConsistent_example = stage_b-IsConsistent (gcm_row ∷ []) content_tree false none

abbrev stored : ZipMember
stored = record { name = codes "Pictures//a.png"; index = 0; stored = true; data_descriptor = true }

check_descriptors_exact_example :
    ((check_stored_data_descriptors (stored ∷ []) a_package ≡ ok tt)
      ↔ All (DescriptorAllowed a_package) (stored ∷ []))
    × ((check_stored_data_descriptors (stored ∷ []) a_package ≢ ok tt)
        → check_stored_data_descriptors (stored ∷ []) a_package ≡ err descriptor_error)
check_descriptors_exact_example = check_descriptors_exact (stored ∷ []) a_package

classify_reader-IsSound_example :
    Returns IsSound (classify_reader (λ bytes. bytes) reader none (some archive))
classify_reader-IsSound_example =
    classify_reader-IsSound (λ bytes. bytes) reader none (some archive)

content_tree-IsCached : IsCached content_tree
unfolding get
content_tree-IsCached dir parts found = cc

stage_b-IsMember_example :
    Returns
      (λ class. All (IsMember content_tree.root) class.encrypted_entries)
      (stage_b (gcm_row ∷ []) content_tree false none)
stage_b-IsMember_example =
    stage_b-IsMember (gcm_row ∷ []) content_tree false none content_tree-IsCached
