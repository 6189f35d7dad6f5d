-- ===== src/Decrypt/Plan/Covers.antt =====
-- src/decrypt_entries.rs: no encrypted row is left out of the plan.
use odf_crypto.Prelude.{ℕ, some, List, [], ◌∷◌, ◌≡◌, ◌⊎◌, Str, Bytes, get, ok}
use odf_crypto.Types.{EntryEncryption}
use odf_crypto.Classify.Members.{Archive}
use odf_crypto.Decrypt.Errors.{DecryptError}
use odf_crypto.Decrypt.Screen.{member_for_archive}
use odf_crypto.Decrypt.Shape.{Sizes}
use odf_crypto.Decrypt.Shape.Exact.{FitsCipher}
use odf_crypto.Decrypt.Plan.{Plan, Planning}

-- The plan is of the row, and its member's length fits the row's cipher.
abbrev pub IsPlanOf : EntryEncryption → Plan → Type 0
IsPlanOf row plan = (plan.row ≡ row) × ((head : Bytes) × FitsCipher row.cipher row plan.len head)

-- Some element satisfies `P`.
abbrev pub HoldsIn : {A : Type 0} → (A → Type 0) → List A → Type 0
HoldsIn P [] = ⊥
HoldsIn P (x ∷ xs) = P x ⊎ HoldsIn P xs

module _ (from_utf8_lossy : Bytes → Str) (archive : Archive) where
  -- The row's path finds a member of the name.
  abbrev pub IsMemberOf : EntryEncryption → Str → Type 0
  IsMemberOf row name =
      (index : ℕ) × (missing : DecryptError) × (member_for_archive from_utf8_lossy archive row.path
          missing
        ≡ ok (index, name))

  -- The row has a plan under the name of its member, or one that another row's took the place of.
  abbrev pub IsCovered : Planning → EntryEncryption → Type 0
  IsCovered s row =
      ((name : Str) × ((plan : Plan) × (IsMemberOf row name
            × (get name s.plans ≡ some plan)
            × IsPlanOf row plan)))
      ⊎ HoldsIn (λ (p : ℕ × Plan). IsPlanOf row p.1) s.superseded

module _ (from_utf8_lossy : Bytes → Str) (archive : Archive) (sizes : Sizes) where
  abbrev Covered : Planning → EntryEncryption → Type 0
  Covered = IsCovered from_utf8_lossy archive
