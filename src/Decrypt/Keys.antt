-- ===== src/Decrypt/Keys.antt =====
-- src/decrypt.rs and src/decrypt_stream.rs: the derived key of a row, and the search for the start
-- key that opens a member. PBKDF2 is a parameter, of the start key, the salt, the iterations and
-- the length of the key.
pub mod Others
pub mod Candidates
pub mod Honest
use odf_crypto.Prelude.{
  ℕ, ℤ, pos, negsuc, Bool, true, false, not, List, [], ◌∷◌, Str, Bytes, codes, in_range, in_range_ℤ,
  unsigned_abs, if◌then◌else◌, Option, none, some, Result, ok, err, ◌>>=◌, ◌>>◌, refuse_if, map_err,
}
use odf_crypto.Types.{EntryEncryption, Kdf, StartKeyAlg, sha1, sha256}
use odf_crypto.Limits.{derived_key_min_len, derived_key_max_len, pbkdf2_min_iter}
use odf_crypto.BadParameter.{ManifestField, out_of_range}
use odf_crypto.Kdf.{LegacyStartKey, Hashes, sha1_ladder, start_key, legacy_start_key}
use odf_crypto.Kdf.Argon2.{Argon2Crate, Host, derive_argon2id}
use odf_crypto.Decrypt.Ceilings.{DecryptLimits}
use odf_crypto.Decrypt.Errors.{
  DecryptError, AllocationSite, bad_parameters, internal, wrong_password, try_zeroed, kdf_error,
}

abbrev pub iterations_out_of_range : DecryptLimits → ℤ → DecryptError
iterations_out_of_range limits got = bad_parameters (
    out_of_range ManifestField.iteration_count got (pos pbkdf2_min_iter)
      (pos limits.pbkdf2_max_iter))

-- `u32::try_from` and the range of the iterations.
unfoldable pub check_iterations : DecryptLimits → ℤ → Result DecryptError ℕ
check_iterations limits (negsuc n) = err (iterations_out_of_range limits (negsuc n))
check_iterations limits (pos n) = do
  refuse_if (not (in_range pbkdf2_min_iter limits.pbkdf2_max_iter n))
      (iterations_out_of_range limits (pos n))
  ok n

pub record Crypto : Type 0 where
  pub hashes : Hashes
  pub pbkdf2_hmac : Bytes → Bytes → ℕ → ℕ → Bytes
  pub argon2 : Argon2Crate
  pub host : Host

-- `return Ok(key)` at a key, and the rest without one.
abbrev pub or_else : Option Bytes → Result DecryptError Bytes → Result DecryptError Bytes
or_else (some key) rest = ok key
or_else none rest = rest

module _ (crypto : Crypto) where
  -- The `match` on the key derivation of the row.
  unfoldable pub derive_with : Kdf → Bytes → DecryptLimits → ℕ → Result DecryptError Bytes
  derive_with (Kdf.pbkdf2 iterations salt) sk limits n = do
    iters ← check_iterations limits iterations
    ok (crypto.pbkdf2_hmac sk salt iters n)
  derive_with (Kdf.argon2id t m p salt) sk limits n =
      map_err kdf_error (derive_argon2id crypto.argon2 crypto.host sk salt t m p limits n)
  derive_with Kdf.pgp_rsa_oaep_mgf1p sk limits n =
      err (internal (codes "PGP row reached derive_key; decrypt screens PGP before deriving"))

  unfoldable pub derive_key : EntryEncryption → Bytes → DecryptLimits → Result DecryptError Bytes
  derive_key row sk limits = do
    refuse_if (not (in_range_ℤ derived_key_min_len derived_key_max_len row.derived_key_len))
        (internal (codes "derive_key reached with a derived key length screen_shape refuses"))
    buffer ←
        try_zeroed crypto.host.can_reserve (unsigned_abs row.derived_key_len)
          AllocationSite.derived_key
    derive_with row.kdf sk limits (unsigned_abs row.derived_key_len)

  -- `accepts` is the test of a key on the member: the tag or the checksum.
  module _ (row : EntryEncryption) (limits : DecryptLimits)
      (accepts : Bytes → Result DecryptError Bool) where
    -- The closure `attempt` of `find_key`.
    unfoldable pub attempt : Bytes → Result DecryptError (Option Bytes)
    attempt sk = do
      key ← derive_key row sk limits
      is_accepted ← accepts key
      ok (if is_accepted then some key else none)

    module _ (password : Str) where
      unfoldable pub try_rungs : List LegacyStartKey → Result DecryptError Bytes
      try_rungs [] = err wrong_password
      try_rungs (rung ∷ rungs) = do
        found ← attempt (legacy_start_key crypto.hashes password rung)
        or_else found (try_rungs rungs)

      abbrev pub after_start_key : StartKeyAlg → Result DecryptError Bytes
      after_start_key sha1 = try_rungs sha1_ladder
      after_start_key sha256 = err wrong_password

      unfoldable pub find_key : Result DecryptError Bytes
      find_key = do
        found ← attempt (start_key crypto.hashes password row.start_key)
        or_else found (after_start_key row.start_key)
