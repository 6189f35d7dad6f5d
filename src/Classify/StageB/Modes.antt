-- ===== src/Classify/StageB/Modes.antt =====
-- src/classify.rs: what the result of `stage_b` says of its entries.
use odf_crypto.Prelude.{
  Bool, true, false, not, ◌&&◌, ◌||◌, Option, none, some, List, [], ◌∷◌, ◌++◌, ◌≡◌, ◌≢◌, refl,
  arith, Str, codes, str_eq, if◌then◌else◌, is_empty, is_some, any, find, All, All-append,
  Bool-cases, Option-cases, inl, inr, Result, ok, err, >>=-ok, Returns, Returns-ok, of_Returns,
  Result-cases, ok-injective, subst,
}
use odf_crypto.Types.{
  PropertyBag, EntryEncryption, Classification, Mode, plain, per_entry, wholesome, is_aes_gcm,
  no_checksum,
}
use odf_crypto.Classify.Names.{short_name}
use odf_crypto.Classify.Rows.{accept_row}
use odf_crypto.Classify.Rows.Checksums.{accept_row-IsEntryOf}
use odf_crypto.Classify.StageB.{
  encrypted_package, Scan, start_scan, note_bag, add_entry, scan_found, scan_stream, scan_resolved,
  scan_bag, scan_bags, mode_of, check_mimetype, conclude, stage_b,
}
use odf_crypto.ZipTree.Node.{ResolvedKind, Resolved, StreamAsFolder}
use odf_crypto.ZipTree.Insert.{FolderTree}
use odf_crypto.ZipTree.Resolve.{resolve}

-- The entry stands for the document: its last path part is one of these two.
abbrev pub is_main : Str → Bool
is_main path =
    str_eq (short_name path) (codes "content.xml") || str_eq (short_name path) encrypted_package

abbrev pub has_path : Str → EntryEncryption → Bool
has_path path e = str_eq e.path path

-- The first entry that stands for the document.
abbrev pub first_main : List EntryEncryption → Option EntryEncryption
first_main entries = find (λ e. is_main e.path) entries

abbrev pub IsChecked : EntryEncryption → Type 0
IsChecked e = is_aes_gcm e.cipher ≡ false → e.checksum ≢ no_checksum

record ScanInv (s : Scan) : Type 0 where
  main : s.common ≡ first_main s.encrypted_entries
  encrypted : s.package_encrypted ≡ is_some s.common
  complete : s.encrypted_package_complete ≡ any (has_path encrypted_package) s.encrypted_entries
  checked : All IsChecked s.encrypted_entries

find-append {ℓ} :
    {A : Type ℓ} (p : A → Bool) (xs : List A) (x : A)
    → find p (xs ++ x ∷ [])
      ≡ (if is_some (find p xs) then find p xs else if p x then some x else none)
unfolding find
find-append p [] x = ground arith
find-append p (y ∷ xs) x = ground (arith, find-append p xs x)

any-append {ℓ} :
    {A : Type ℓ} (p : A → Bool) (xs : List A) (x : A) → any p (xs ++ x ∷ []) ≡ (any p xs || p x)
unfolding any
any-append p [] x = ground arith
any-append p (y ∷ xs) x = ground (arith, any-append p xs x)

add_entry-ScanInv :
    (s : Scan) (tree_path : Str) (e : EntryEncryption)
    → ScanInv s
    → e.path ≡ tree_path
    → IsChecked e
    → ScanInv (add_entry s tree_path e)
unfolding add_entry
add_entry-ScanInv s tree_path e h same c = record {
  main = ground (
    arith,
    find-append (λ (e : EntryEncryption). is_main e.path) s.encrypted_entries e,
    h.main,
    h.encrypted,
  );
  encrypted = ground (arith, h.encrypted);
  complete =
      ground
        (arith, h.complete, any-append (has_path encrypted_package) s.encrypted_entries e, same);
  checked = All-append IsChecked s.encrypted_entries (e ∷ []) h.checked (c, tt);
}

-- A round that leaves the four fields alone.
same_entries :
    (s t : Scan)
    → t.common ≡ s.common
    → t.package_encrypted ≡ s.package_encrypted
    → t.encrypted_package_complete ≡ s.encrypted_package_complete
    → t.encrypted_entries ≡ s.encrypted_entries
    → ScanInv s
    → ScanInv t
same_entries s t c p e l h = record {
  main = rw (c, l) h.main;
  encrypted = rw (c, p) h.encrypted;
  complete = rw (e, l) h.complete;
  checked = rw l h.checked;
}

note_bag-ScanInv : (s : Scan) (bag : PropertyBag) → ScanInv s → ScanInv (note_bag s bag)
unfolding note_bag
note_bag-ScanInv s bag h = elim (Option-cases bag.key_info) [
  | inl e ↦ rw (e, note_bag) (same_entries s _ refl refl refl refl h)
  | inr (k, e) ↦ rw (e, note_bag) (same_entries s _ refl refl refl refl h)
]

scan_stream-ScanInv :
    (s : Scan) (bag : PropertyBag) (tree_path : Str)
    → ScanInv s
    → ScanInv (scan_stream s bag tree_path)
unfolding scan_stream
scan_stream-ScanInv s bag tree_path h = elim (Option-cases (accept_row bag s.key_info tree_path)) [
  | inl e ↦ rw (e, scan_stream) (same_entries s _ refl refl refl refl h)
  | inr (entry, e) ↦
      let row = accept_row-IsEntryOf bag s.key_info tree_path entry e in
      rw (e, scan_stream)
        (add_entry-ScanInv _ tree_path entry (same_entries s _ refl refl refl refl h) row.path_is
          row.checked)
]

scan_resolved-ScanInv :
    (s : Scan) (bag : PropertyBag) (kind : ResolvedKind) (tree_path : Str)
    → ScanInv s
    → ScanInv (scan_resolved s bag kind tree_path)
unfolding scan_resolved
scan_resolved-ScanInv s bag ResolvedKind.folder tree_path h = same_entries s _ refl refl refl refl h
scan_resolved-ScanInv s bag ResolvedKind.stream tree_path h = scan_stream-ScanInv s bag tree_path h

scan_found-ScanInv :
    (s : Scan) (bag : PropertyBag) (found : Result StreamAsFolder (Option Resolved))
    → ScanInv s
    → Returns ScanInv (scan_found s bag found)
unfolding scan_found
scan_found-ScanInv s bag (err e) h = tt
scan_found-ScanInv s bag (ok none) h = h
scan_found-ScanInv s bag (ok (some r)) h = scan_resolved-ScanInv s bag r.kind r.tree_path h

scan_bag-ScanInv : (s : Scan) (bag : PropertyBag) → ScanInv s → Returns ScanInv (scan_bag s bag)
unfolding scan_bag
scan_bag-ScanInv s bag h =
    let noted = note_bag s bag in
    let n = note_bag-ScanInv s bag h in
    let tree = (resolve noted.tree bag.full_path).0 in
    elim (Bool-cases (is_empty bag.full_path)) [
      | inl e ↦ rw e n
      | inr e ↦ rw e (
          scan_found-ScanInv (record noted { tree = tree }) bag (resolve noted.tree bag.full_path).1
            (same_entries noted (record noted { tree = tree }) refl refl refl refl n))
    ]

scan_bags-ScanInv :
    (s : Scan) (bags : List PropertyBag) → ScanInv s → Returns ScanInv (scan_bags s bags)
unfolding scan_bags
scan_bags-ScanInv s [] h = h
scan_bags-ScanInv s (bag ∷ bags) h = elim (Result-cases (scan_bag s bag)) [
  | inl (t, e) ↦
      rw (e, scan_bags)
        (scan_bags-ScanInv t bags
          (Returns-ok ScanInv (scan_bag s bag) (scan_bag-ScanInv s bag h) e))
  | inr (x, e) ↦ rw (e, scan_bags) tt
]

start_scan-ScanInv : (tree : FolderTree) → ScanInv (start_scan tree)
unfolding find any
start_scan-ScanInv tree = record { main = refl; encrypted = refl; complete = refl; checked = tt }

-- The mode that the entries make, in an archive with or without a root "encrypted-package".
abbrev pub mode_for : Bool → List EntryEncryption → Mode
mode_for zip_has_encrypted_package entries =
    if zip_has_encrypted_package && any (has_path encrypted_package) entries
    then wholesome
    else if not (is_empty entries)
    then per_entry
    else plain

-- What a classification says of its entries.
pub record IsConsistent (class : Classification) : Type 0 where
  pub main : class.common ≡ first_main class.encrypted_entries
  pub encrypted : class.package_encrypted ≡ is_some class.common
  pub mode : class.mode ≡ mode_for class.zip_has_encrypted_package class.encrypted_entries
  pub checked : All IsChecked class.encrypted_entries
  pub fatal : class.odf12_fatal ≡ true → class.has_unexpected_streams ≡ true

conclude-IsConsistent :
    (zip_has_encrypted_package : Bool) (s : Scan) (tree : FolderTree)
    → ScanInv s
    → IsConsistent (conclude zip_has_encrypted_package s tree)
unfolding conclude mode_of
conclude-IsConsistent zip_has_encrypted_package s tree h = record {
  main = h.main;
  encrypted = h.encrypted;
  mode = rw h.complete;
  checked = h.checked;
  fatal = λ e. ground arith;
}

-- Whatever the manifest rows and the tree, a classification is consistent: `common` is the first
-- entry whose last path part is "content.xml" or "encrypted-package", and `package_encrypted` says
-- whether there is one; the mode follows from the entries; an entry whose cipher is not AES-GCM has
-- a checksum; and a fatal package has unexpected streams.
pub stage_b-IsConsistent :
    (bags : List PropertyBag) (tree : FolderTree) (zip_has_encrypted_package : Bool)
    (mimetype : Option Str)
    → Returns IsConsistent (stage_b bags tree zip_has_encrypted_package mimetype)
unfolding stage_b
stage_b-IsConsistent bags tree zip_has_encrypted_package mimetype =
    of_Returns IsConsistent (stage_b bags tree zip_has_encrypted_package mimetype) λ class e.
      let (s, rest, es) = >>=-ok (scan_bags (start_scan tree) bags) _ e in
      let (tree', last, et) =
        >>=-ok (check_mimetype s.tree zip_has_encrypted_package s.o_first_version mimetype) _
          rest in
      let inv =
        Returns-ok ScanInv (scan_bags (start_scan tree) bags)
          (scan_bags-ScanInv (start_scan tree) bags (start_scan-ScanInv tree)) es in
      subst IsConsistent (ok-injective last)
        (conclude-IsConsistent zip_has_encrypted_package s tree' inv)
