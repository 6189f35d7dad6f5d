-- ===== src/Decrypt/Screen/Totals.antt =====
-- src/decrypt.rs: which classifications pass.
use odf_crypto.Prelude.{
  ℕ, ◌+◌, ◌-◌, ◌^◌, ◌≤◌, false, List, [], ◌∷◌, ◌≡◌, ◌≢◌, ltb, length, if◌then◌else◌, All,
}
use odf_crypto.Types.{Classification, EntryEncryption, plain, pgp_rsa_oaep_mgf1p, is_wholesome}
use odf_crypto.Classify.Package.{wholesome_row}
use odf_crypto.Decrypt.Screen.{declared_or_zero, declared_of}

-- The declared sizes, summed without a bound.
abbrev pub total_of : List EntryEncryption → ℕ
total_of [] = 0
total_of (row ∷ rows) = declared_or_zero row.size + total_of rows

abbrev pub declared_total : Classification → ℕ
declared_total class =
    if is_wholesome class.mode
    then declared_of (wholesome_row class)
    else total_of class.encrypted_entries

-- The bounded sum tells no more of the sum than a `u64` can.
abbrev u64_capped : ℕ → ℕ
u64_capped n = if ltb n (2 ^ 64) then n else 2 ^ 64 - 1

-- A package is eligible: encrypted, openable and without PGP keys, with a declared total and a
-- number of entries inside the limits.
abbrev pub IsEligible : Classification → ℕ → Type 0
IsEligible class limit =
    (class.mode ≢ plain)
    × (class.odf12_fatal ≡ false)
    × All (λ (e : EntryEncryption). e.kdf ≢ pgp_rsa_oaep_mgf1p) class.encrypted_entries
    × (length class.encrypted_entries ≤ 4096)
    × (declared_total class ≤ limit)
