-- ===== src/Classify/Members.antt =====
-- src/classify.rs: the members of the archive, and the two that detection reads. The zip crate and
-- `String::from_utf8_lossy` are parameters: an archive is what `by_index` gives for each index, an
-- error as `zip_err::message` words it, and a member is the fields that the code reads of it.
pub mod Listing
use odf_crypto.Prelude.{
  ℕ, zero, suc, ◌+◌, ◌*◌, ◌/◌, ◌%◌, Bool, true, false, not, ◌&&◌, Option, none, some, List, [], ◌∷◌,
  Str, Bytes, codes, str_eq, ltb, ◌==◌, if◌then◌else◌, length, any, find, to_ascii_lowercase,
  Result, ok, err, ◌>>=◌, ◌>>◌, refuse_if, map_err,
}
use odf_crypto.Types.{DetectError, zip}
use odf_crypto.Classify.Names.{is_valid_zip_entry_file_name, member_matches_path}
use odf_crypto.ZipTree.Insert.{FolderTree}
use odf_crypto.ZipTree.Resolve.{root_has_entry, root_has_stream}

-- `read_to_end n` is `take(n).read_to_end`, and `read n` one read into a buffer of `n` bytes.
pub record ZipFile : Type 0 where
  pub name_raw : Bytes
  pub uncompressed_size : ℕ
  pub system : ℕ
  pub external_attributes : ℕ
  pub is_stored : Bool
  pub using_data_descriptor : Bool
  pub read_to_end : ℕ → Result Str Bytes
  pub read : ℕ → Result Str Bytes

abbrev pub Archive : Type 0
Archive = List (Result Str ZipFile)

pub record ZipMember : Type 0 where
  pub name : Str
  pub index : ℕ
  pub stored : Bool
  pub data_descriptor : Bool

-- No entry stands behind the last one.
abbrev pub by_index : Archive → ℕ → Result Str ZipFile
by_index [] i = err (codes "specified file not found in archive")
by_index (f ∷ archive) zero = f
by_index (f ∷ archive) (suc i) = by_index archive i

-- A folder entry of a DOS archive, which is skipped.
unfoldable pub is_folder_entry : ZipFile → Bool
is_folder_entry f =
    f.uncompressed_size == 0 && f.system == 0 && not (f.external_attributes / 16 % 2 == 0)

-- The three checks of a name, against the names that were seen before.
unfoldable pub check_name : Str → List Str → List Str → Result DetectError Unit
check_name name seen seen_lower = do
  refuse_if (not (is_valid_zip_entry_file_name name)) (zip (codes "Zip entry has an invalid name."))
  refuse_if (any (str_eq name) seen) (zip (codes "Duplicate CEN entry"))
  refuse_if (any (str_eq (to_ascii_lowercase name)) seen_lower)
      (zip (codes "Duplicate CEN entry (case insensitive)"))

module _ (from_utf8_lossy : Bytes → Str) where
  abbrev pub member_of : ℕ → ZipFile → ZipMember
  member_of i f = record {
    name = from_utf8_lossy f.name_raw;
    index = i;
    stored = f.is_stored;
    data_descriptor = f.using_data_descriptor;
  }

  -- The loop from index `i` on.
  unfoldable pub collect_from :
      ℕ → List Str → List Str → Archive → Result DetectError (List ZipMember)
  collect_from i seen seen_lower [] = ok []
  collect_from i seen seen_lower (err message ∷ archive) = err (zip message)
  collect_from i seen seen_lower (ok f ∷ archive) =
      let name = from_utf8_lossy f.name_raw in
      elim (is_folder_entry f) [
        | true ↦ collect_from (i + 1) seen seen_lower archive
        | false ↦ elim (check_name name seen seen_lower) [
          | err e ↦ err e
          | ok _ ↦
              elim (collect_from (i + 1) (name ∷ seen) (to_ascii_lowercase name ∷ seen_lower)
                archive) [ err e ↦ err e | ok members ↦ ok (member_of i f ∷ members) ]
        ]
      ]

  unfoldable pub collect_members : Archive → Result DetectError (List ZipMember)
  collect_members = collect_from 0 [] []

abbrev pub manifest_read_cap : ℕ
manifest_read_cap = 8 * 1024 * 1024

unfoldable pub read_capped : Result Str ZipFile → Result DetectError (Option Bytes)
read_capped opened = do
  file ← map_err zip opened
  buf ← map_err zip (file.read_to_end (manifest_read_cap + 1))
  if ltb manifest_read_cap (length buf)
      then err (zip (codes "zip entry too large"))
      else ok (some buf)

unfoldable pub read_named_member :
    Archive → List ZipMember → Str → Result DetectError (Option Bytes)
read_named_member archive members want =
    elim (find (λ m. member_matches_path m.name want) members) [
      | none ↦ ok none
      | some member ↦ read_capped (by_index archive member.index)
    ]

abbrev pub mimetype_ceiling : ℕ
mimetype_ceiling = 1024

abbrev pub mimetype_name : Str
mimetype_name = codes "mimetype"

unfoldable pub read_head : (Bytes → Str) → Result Str ZipFile → Result DetectError (Option Str)
read_head from_utf8_lossy opened = do
  file ← map_err zip opened
  buf ← map_err zip (file.read mimetype_ceiling)
  ok (some (from_utf8_lossy buf))

unfoldable pub read_mimetype :
    (Bytes → Str) → Archive → List ZipMember → FolderTree → Result DetectError (Option Str)
read_mimetype from_utf8_lossy archive members tree =
    if not (root_has_entry tree mimetype_name)
    then ok none
    else if not (root_has_stream tree mimetype_name)
    then ok (some [])
    else elim (find (λ m. str_eq m.name mimetype_name) members) [
      | none ↦ ok (some [])
      | some member ↦ read_head from_utf8_lossy (by_index archive member.index)
    ]
