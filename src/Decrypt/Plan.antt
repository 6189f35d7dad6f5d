-- ===== src/Decrypt/Plan.antt =====
-- src/decrypt_entries.rs: the plan of `per_entry`, made before any key is derived. The zip crate and
-- `String::from_utf8_lossy` are parameters, as in detection.
pub mod Covers
use odf_crypto.Prelude.{
  ℕ, zero, suc, ◌+◌, Option, none, some, List, [], ◌∷◌, ◌++◌, Str, Bytes, Assoc, get, insert,
  Result, ok, err, ◌>>=◌, ◌>>◌, map_err,
}
use odf_crypto.Types.{EntryEncryption, Cipher, aes_gcm_w3c, aes_cbc_w3c, blowfish_cfb8}
use odf_crypto.Limits.{aes_gcm_iv_len}
use odf_crypto.Classify.Members.{Archive, by_index}
use odf_crypto.Decrypt.Errors.{DecryptError, zip}
use odf_crypto.Decrypt.Screen.{member_for_archive, no_member}
use odf_crypto.Decrypt.Shape.{screen_shape, Sizes, declared}

pub data IntegrityOutcome : Type 0 where
  verified password_check_only : IntegrityOutcome

unfoldable pub integrity_of : EntryEncryption → IntegrityOutcome
integrity_of row = by_cipher row.cipher
  where
    by_cipher : Cipher → IntegrityOutcome
    by_cipher aes_gcm_w3c = verified
    by_cipher aes_cbc_w3c = password_check_only
    by_cipher blowfish_cfb8 = password_check_only

pub record Plan : Type 0 where
  pub row : EntryEncryption
  pub expected : ℕ
  pub len : ℕ

pub record Planning : Type 0 where
  pub plans : Assoc Plan
  pub superseded : List (ℕ × Plan)

abbrev pub no_plans : Planning
no_plans = record { plans = []; superseded = [] }

-- The member's length, and its first bytes: a `read_full` of a member that was just opened.
unfoldable pub member_shape : Archive → ℕ → Result DecryptError (ℕ × Bytes)
member_shape archive index = do
  file ← map_err zip (by_index archive index)
  head ← map_err zip (file.read_to_end aes_gcm_iv_len)
  ok (file.uncompressed_size, head)

abbrev pub superseding : List (ℕ × Plan) → ℕ → Option Plan → List (ℕ × Plan)
superseding superseded index none = superseded
superseding superseded index (some earlier) = superseded ++ (index, earlier) ∷ []

-- `plans.insert(name, plan)`, with the plan that stood there
unfoldable pub insert_plan : Planning → ℕ → Str → Plan → Planning
insert_plan s index name plan = record {
  plans = insert name plan s.plans;
  superseded = superseding s.superseded index (get name s.plans);
}

module _ (from_utf8_lossy : Bytes → Str) (archive : Archive) (sizes : Sizes) where
  unfoldable pub plan_row : Planning → ℕ → EntryEncryption → Result DecryptError Planning
  plan_row s row_index row = do
    expected ← declared sizes row.size
    found ← member_for_archive from_utf8_lossy archive row.path (no_member row_index)
    shape ← member_shape archive found.0
    screen_shape row shape.0 shape.1
    ok (insert_plan s found.0 found.1 (record { row = row; expected = expected; len = shape.0 }))

  -- The loop over the encrypted rows, from an index on.
  unfoldable pub plan_rows : Planning → ℕ → List EntryEncryption → Result DecryptError Planning
  plan_rows s row_index [] = ok s
  plan_rows s row_index (row ∷ rows) = do
    next ← plan_row s row_index row
    plan_rows next (suc row_index) rows
