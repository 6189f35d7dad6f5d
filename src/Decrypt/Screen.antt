-- ===== src/Decrypt/Screen.antt =====
-- src/decrypt.rs: the refusals that need only the classification, and the member of a row. The zip
-- crate and `String::from_utf8_lossy` are parameters, as in detection.
pub mod Totals
use odf_crypto.Prelude.{
  ℕ, zero, suc, ◌+◌, ◌-◌, ◌^◌, ℤ, pos, negsuc, Bool, true, false, ◌&&◌, List, [], ◌∷◌, Str, Bytes,
  codes, str_eq, leb, ltb, if◌then◌else◌, length, any, Option, none, some, Result, ok, err, ◌>>=◌,
  ◌>>◌, refuse_if, map_err,
}
use odf_crypto.Types.{
  Classification, EntryEncryption, Mode, Kdf, pgp_rsa_oaep_mgf1p, is_plain, is_wholesome,
}
use odf_crypto.Limits.{max_encrypted_entries}
use odf_crypto.BadParameter.{BadParameter, ManifestField, out_of_range, wide}
use odf_crypto.Classify.Names.{member_matches_path}
use odf_crypto.Classify.Members.{Archive, by_index}
use odf_crypto.Classify.StageB.{encrypted_package}
use odf_crypto.Classify.Package.{wholesome_row}
use odf_crypto.Decrypt.Ceilings.{DecryptLimits}
use odf_crypto.Decrypt.Errors.{
  DecryptError, bad_parameters, not_encrypted, odf12_fatal, unsupported_pgp, output_limit, internal,
  zip,
}

-- `u64::try_from(row.size).unwrap_or(0)`
abbrev pub declared_or_zero : ℤ → ℕ
declared_or_zero (pos n) = n
declared_or_zero (negsuc n) = 0

-- `u64::saturating_add`
abbrev pub saturating_add : ℕ → ℕ → ℕ
saturating_add a b = if ltb (a + b) (2 ^ 64) then a + b else 2 ^ 64 - 1

unfoldable pub sum_declared : ℕ → List EntryEncryption → ℕ
sum_declared sum [] = sum
sum_declared sum (row ∷ rows) = sum_declared (saturating_add sum (declared_or_zero row.size)) rows

-- `map_or(0, declared)`
abbrev pub declared_of : Option EntryEncryption → ℕ
declared_of none = 0
declared_of (some row) = declared_or_zero row.size

unfoldable pub screen_output_limit : Classification → ℕ → Result DecryptError Unit
screen_output_limit class limit =
    let total =
      if is_wholesome class.mode
      then declared_of (wholesome_row class)
      else sum_declared 0 class.encrypted_entries in
    refuse_if (ltb limit total) (output_limit limit)

unfoldable pub ensure_encrypted_entry_count : ℕ → ℕ → Result DecryptError Unit
ensure_encrypted_entry_count n cap =
    refuse_if (ltb cap n)
      (bad_parameters (out_of_range ManifestField.encrypted_entries (wide n) (pos 0) (wide cap)))

abbrev pub needs_pgp : Kdf → Bool
needs_pgp pgp_rsa_oaep_mgf1p = true
needs_pgp _ = false

unfoldable pub screen_class : Classification → DecryptLimits → Result DecryptError Unit
screen_class class limits = do
  refuse_if (is_plain class.mode) not_encrypted
  refuse_if class.odf12_fatal odf12_fatal
  refuse_if (any (λ e. needs_pgp e.kdf) class.encrypted_entries) unsupported_pgp
  ensure_encrypted_entry_count (length class.encrypted_entries) max_encrypted_entries
  screen_output_limit class limits.max_output_bytes

-- The `enumerate().find(..)` of `wholesome_row`, from an index on.
unfoldable pub find_row_from :
    ℕ → (EntryEncryption → Bool) → List EntryEncryption → Option (ℕ × EntryEncryption)
find_row_from i p [] = none
find_row_from i p (row ∷ rows) = elim (p row) [
  | true ↦ some (i, row)
  | false ↦ find_row_from (suc i) p rows
]

-- `ok_or`
abbrev pub or_refuse : {A : Type 0} → Option A → DecryptError → Result DecryptError A
or_refuse none e = err e
or_refuse (some a) e = ok a

-- `wholesome_row` of src/decrypt.rs
unfoldable pub find_wholesome_row : Classification → Result DecryptError (ℕ × EntryEncryption)
find_wholesome_row class =
    or_refuse
      (find_row_from 0 (λ e. is_wholesome class.mode && str_eq e.path encrypted_package)
        class.encrypted_entries)
      (internal (codes "a wholesome classification without its encrypted-package row"))

-- The refusal for a row that names no member.
abbrev pub no_member : ℕ → DecryptError
no_member row = bad_parameters (BadParameter.no_member row)

module _ (from_utf8_lossy : Bytes → Str) where
  -- The loop of `member_for_archive`, from an index on.
  unfoldable pub member_from : ℕ → Archive → Str → DecryptError → Result DecryptError (ℕ × Str)
  member_from i [] path missing = err missing
  member_from i (opened ∷ archive) path missing = do
    file ← map_err zip opened
    elim (member_matches_path (from_utf8_lossy file.name_raw) path) [
      | true ↦ ok (i, from_utf8_lossy file.name_raw)
      | false ↦ member_from (suc i) archive path missing
    ]

  unfoldable pub member_for_archive : Archive → Str → DecryptError → Result DecryptError (ℕ × Str)
  member_for_archive archive path missing = member_from 0 archive path missing
