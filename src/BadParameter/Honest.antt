-- ===== src/BadParameter/Honest.antt =====
-- src/bad_parameter.rs: what a refusal says of the value it names.
use odf_crypto.Prelude.{ℤ, leb_ℤ, Bool, false, ◌&&◌, ◌≡◌}
use odf_crypto.BadParameter.{
  BadParameter, out_of_range, cipher_rejects, key_size_for_cipher, member, no_member,
}
use odf_crypto.Decrypt.Errors.{DecryptError, bad_parameters}
use odf_crypto.Decrypt.Shape.{cipher_accepts_key_len}
use odf_crypto.Kdf.Argon2.{KdfError}

-- `got` lies between `low` and `high`.
abbrev pub lies_within : ℤ → ℤ → ℤ → Bool
lies_within low high got = leb_ℤ low got && leb_ℤ got high

-- The refused value lies outside the bounds that the refusal names, or is no key size of the
-- cipher that it names.
abbrev pub IsHonest : BadParameter → Type 0
IsHonest (out_of_range field got low high) = lies_within low high got ≡ false
IsHonest (cipher_rejects field primitive got low high) = lies_within low high got ≡ false
IsHonest (key_size_for_cipher got cipher) = cipher_accepts_key_len cipher got ≡ false
IsHonest (member fault) = Unit
IsHonest (no_member row) = Unit

abbrev pub KdfHonest : KdfError → Type 0
KdfHonest (KdfError.params b) = IsHonest b
KdfHonest _ = Unit

abbrev pub DecryptHonest : DecryptError → Type 0
DecryptHonest (bad_parameters b) = IsHonest b
DecryptHonest _ = Unit
