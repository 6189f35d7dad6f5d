-- ===== src/Classify/Rows.antt =====
-- src/classify.rs: which manifest rows are encrypted entries.
pub mod Checksums
use odf_crypto.Prelude.{
  Bool, true, false, not, ◌&&◌, ◌||◌, Option, none, some, Str, Bytes, if◌then◌else◌, is_some,
  unwrap_or, pos,
}
use odf_crypto.Types.{
  PropertyBag, EntryEncryption, Cipher, is_aes_gcm, Kdf, KdfId, Checksum, no_checksum, ChecksumAlg,
  sha1, sha256,
}
use odf_crypto.Uris.{default_derived_key_size}

unfoldable pub checksum_present_or_unneeded : PropertyBag → Cipher → Bool
checksum_present_or_unneeded bag cipher =
    is_aes_gcm cipher || (is_some bag.digest && is_some bag.digest_alg)

abbrev checksum_from : Option ChecksumAlg → Option Bytes → Checksum
checksum_from (some ChecksumAlg.sha1_1k) (some d) = Checksum.sha1_1k d
checksum_from (some ChecksumAlg.sha256_1k) (some d) = Checksum.sha256_1k d
checksum_from _ _ = no_checksum

unfoldable pub checksum_of : PropertyBag → Checksum
checksum_of bag = checksum_from bag.digest_alg bag.digest

-- `?` on an `Option`
infixl 5 ◌>>=?◌
abbrev pub ◌>>=?◌ : {A B : Type 0} → Option A → (A → Option B) → Option B
none >>=? f = none
some a >>=? f = f a

abbrev is_pgp : Option KdfId → Bool
is_pgp (some KdfId.pgp_rsa_oaep_mgf1p) = true
is_pgp _ = false

unfoldable pub pgp_entry : PropertyBag → Str → Option EntryEncryption
pgp_entry bag path =
    if not (is_pgp bag.kdf)
    then none
    else bag.enc_alg >>=? λ cipher. bag.size >>=? λ size. bag.iv >>=? λ iv.
        if not (checksum_present_or_unneeded bag cipher)
        then none
        else some (record {
          path = path;
          cipher = cipher;
          kdf = Kdf.pgp_rsa_oaep_mgf1p;
          start_key = sha256;
          checksum = checksum_of bag;
          size = size;
          iv = iv;
          derived_key_len = default_derived_key_size cipher;
        })

-- `match bag.kdf`; `none` is an early `return None`.
unfoldable pub password_kdf : PropertyBag → Bytes → Option KdfId → Option Kdf
password_kdf bag salt (some KdfId.pbkdf2) =
    some (Kdf.pbkdf2 (unwrap_or bag.iteration_count (pos 0)) salt)
password_kdf bag salt (some KdfId.argon2id) = elim bag.argon2_args [
  | none ↦ none
  | some (t, m, p) ↦ some (Kdf.argon2id t m p salt)
]
password_kdf bag salt _ = none

unfoldable pub password_entry : PropertyBag → Str → Option EntryEncryption
password_entry bag path = bag.enc_alg >>=? λ cipher. bag.size >>=? λ size. bag.iv >>=? λ iv.
    bag.salt >>=? λ salt. password_kdf bag salt bag.kdf >>=? λ kdf.
    if not (checksum_present_or_unneeded bag cipher)
    then none
    else some (record {
      path = path;
      cipher = cipher;
      kdf = kdf;
      start_key = unwrap_or bag.start_key_alg sha1;
      checksum = checksum_of bag;
      size = size;
      iv = iv;
      derived_key_len = unwrap_or bag.derived_key_size (pos 16);
    })

unfoldable pub accept_row : PropertyBag → Bool → Str → Option EntryEncryption
accept_row bag key_info path =
    if key_info
    then elim (pgp_entry bag path) [ some row ↦ some row | none ↦ password_entry bag path ]
    else password_entry bag path
