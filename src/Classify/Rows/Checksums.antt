-- ===== src/Classify/Rows/Checksums.antt =====
-- src/classify.rs: what a row must have to be an encrypted entry.
use odf_crypto.Prelude.{
  Bool, true, false, ◌&&◌, ◌||◌, Option, none, some, ◌≡◌, ◌≢◌, ◌∙◌, arith, Str, is_some, unwrap_or,
  Option-cases, inl, inr, pos,
}
use odf_crypto.Types.{PropertyBag, EntryEncryption, Cipher, is_aes_gcm, Kdf, KdfId, no_checksum}
use odf_crypto.Classify.Rows.{
  checksum_present_or_unneeded, checksum_of, pgp_entry, password_kdf, password_entry, accept_row,
}

-- The derivation of an accepted row's key, by the function that the row names.
abbrev pub KdfOf : PropertyBag → Kdf → Type 0
KdfOf bag (Kdf.pbkdf2 iterations salt) =
    (bag.kdf ≡ some KdfId.pbkdf2)
    × (bag.salt ≡ some salt)
    × (iterations ≡ unwrap_or bag.iteration_count (pos 0))
KdfOf bag (Kdf.argon2id t m p salt) =
    (bag.kdf ≡ some KdfId.argon2id) × (bag.salt ≡ some salt) × (bag.argon2_args ≡ some (t, m, p))
KdfOf bag Kdf.pgp_rsa_oaep_mgf1p = bag.kdf ≡ some KdfId.pgp_rsa_oaep_mgf1p

-- What an entry takes from its row.
pub record IsEntryOf (bag : PropertyBag) (path : Str) (e : EntryEncryption) : Type 0 where
  pub path_is : e.path ≡ path
  pub cipher : bag.enc_alg ≡ some e.cipher
  pub size : bag.size ≡ some e.size
  pub iv : bag.iv ≡ some e.iv
  pub kdf : KdfOf bag e.kdf
  pub checked : is_aes_gcm e.cipher ≡ false → e.checksum ≢ no_checksum

checksum_of-present :
    (bag : PropertyBag) (cipher : Cipher)
    → checksum_present_or_unneeded bag cipher ≡ true
    → is_aes_gcm cipher ≡ false
    → checksum_of bag ≢ no_checksum
unfolding checksum_present_or_unneeded checksum_of
checksum_of-present bag cipher h g = ground arith

pgp_entry-IsEntryOf :
    (bag : PropertyBag) (path : Str) (e : EntryEncryption)
    → pgp_entry bag path ≡ some e
    → IsEntryOf bag path e
unfolding pgp_entry
pgp_entry-IsEntryOf bag path e h = ground (arith, checksum_of-present bag e.cipher)

password_entry-IsEntryOf :
    (bag : PropertyBag) (path : Str) (e : EntryEncryption)
    → password_entry bag path ≡ some e
    → IsEntryOf bag path e
unfolding password_entry password_kdf
password_entry-IsEntryOf bag path e h = ground (arith, checksum_of-present bag e.cipher)

-- An accepted row is a password row or, once keys were seen, a PGP row, and the entry has the
-- row's values; unless its cipher is AES-GCM it has a checksum to test the password against.
pub accept_row-IsEntryOf :
    (bag : PropertyBag) (key_info : Bool) (path : Str) (e : EntryEncryption)
    → accept_row bag key_info path ≡ some e
    → IsEntryOf bag path e
unfolding accept_row
accept_row-IsEntryOf bag false path e h = password_entry-IsEntryOf bag path e h
accept_row-IsEntryOf bag true path e h = elim (Option-cases (pgp_entry bag path)) [
  | inl x ↦ password_entry-IsEntryOf bag path e (rw (x, accept_row) at h)
  | inr (row, x) ↦ pgp_entry-IsEntryOf bag path e (x ∙ (rw (x, accept_row) at h))
]

-- The parts that a row needs, by its key derivation function.
abbrev pub has_kdf : PropertyBag → Bool → Option KdfId → Bool
has_kdf bag key_info none = false
has_kdf bag key_info (some KdfId.pbkdf2) = is_some bag.salt
has_kdf bag key_info (some KdfId.argon2id) = is_some bag.salt && is_some bag.argon2_args
has_kdf bag key_info (some KdfId.pgp_rsa_oaep_mgf1p) = key_info

abbrev pub has_checksum : PropertyBag → Option Cipher → Bool
has_checksum bag none = false
has_checksum bag (some cipher) = is_aes_gcm cipher || (is_some bag.digest && is_some bag.digest_alg)

abbrev pub is_complete : PropertyBag → Bool → Bool
is_complete bag key_info =
    is_some bag.size
    && is_some bag.iv
    && has_checksum bag bag.enc_alg
    && has_kdf bag key_info bag.kdf

-- A row is accepted exactly when it has a size, an initialisation vector, a cipher with a checksum
-- where the cipher needs one, and what its key derivation function needs.
pub accept_row-exact :
    (bag : PropertyBag) (key_info : Bool) (path : Str)
    → is_some (accept_row bag key_info path) ≡ is_complete bag key_info
unfolding accept_row pgp_entry password_entry password_kdf checksum_present_or_unneeded
accept_row-exact bag key_info path = ground arith
