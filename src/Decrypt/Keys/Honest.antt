-- ===== src/Decrypt/Keys/Honest.antt =====
-- src/decrypt.rs: what the refusals of the key derivation say.
use odf_crypto.Prelude.{
  ℕ, ◌-◌, ◌^◌, ◌≤◌, ◌<◌, ℤ, pos, negsuc, Bool, refl, arith, Bytes, unsigned_abs, Result, ok, err,
  map_err, Refuses, Refuses->>=, Refuses-guard,
}
use odf_crypto.Types.{EntryEncryption, Kdf}
use odf_crypto.BadParameter.Honest.{KdfHonest, DecryptHonest}
use odf_crypto.Kdf.Argon2.{KdfError, Argon2Crate, derive_argon2id}
use odf_crypto.Kdf.Argon2.Checks.{derive_argon2id-KdfHonest}
use odf_crypto.Decrypt.Ceilings.{DecryptLimits}
use odf_crypto.Decrypt.Errors.{AllocationSite, try_zeroed, kdf_error}
use odf_crypto.Decrypt.Keys.{Crypto, check_iterations, derive_with, derive_key}

kdf_error-DecryptHonest : (e : KdfError) → KdfHonest e → DecryptHonest (kdf_error e)
kdf_error-DecryptHonest (KdfError.params b) h = h
kdf_error-DecryptHonest (KdfError.internal s) h = tt
kdf_error-DecryptHonest (KdfError.host_cannot_allocate n) h = tt
kdf_error-DecryptHonest (KdfError.host_cannot_spawn n) h = tt

of_kdf :
    (r : Result KdfError Bytes) → Refuses KdfHonest r → Refuses DecryptHonest (map_err kdf_error r)
of_kdf (ok key) h = tt
of_kdf (err e) h = kdf_error-DecryptHonest e h

iterations-DecryptHonest :
    (limits : DecryptLimits) (n : ℤ) → Refuses DecryptHonest (check_iterations limits n)
unfolding check_iterations
iterations-DecryptHonest limits (negsuc n) = refl
iterations-DecryptHonest limits (pos n) =
    Refuses-guard DecryptHonest _ _ (ok n) (λ out. ground arith) tt

-- The crate admits some length of a salt, and its greatest is below that of a buffer.
abbrev pub AdmitsSalts : Argon2Crate → Type 0
AdmitsSalts crate = (crate.max_salt_len < 2 ^ 63 - 1) × (crate.min_salt_len ≤ crate.max_salt_len)

derive_with-DecryptHonest :
    (crypto : Crypto)
    → AdmitsSalts crypto.argon2
    → (kdf : Kdf) (sk : Bytes) (limits : DecryptLimits) (n : ℕ)
    → Refuses DecryptHonest (derive_with crypto kdf sk limits n)
unfolding derive_with
derive_with-DecryptHonest crypto (top, low) (Kdf.pbkdf2 i salt) sk limits n =
    Refuses->>= DecryptHonest _ _ (iterations-DecryptHonest limits i) (λ iters e. tt)
derive_with-DecryptHonest crypto (top, low) (Kdf.argon2id t m p salt) sk limits n =
    of_kdf (derive_argon2id crypto.argon2 crypto.host sk salt t m p limits n)
      (derive_argon2id-KdfHonest crypto.argon2 top low crypto.host sk salt t m p limits n)
derive_with-DecryptHonest crypto (top, low) Kdf.pgp_rsa_oaep_mgf1p sk limits n = tt

zeroed-DecryptHonest :
    (can_reserve : ℕ → Bool) (n : ℕ) (site : AllocationSite)
    → Refuses DecryptHonest (try_zeroed can_reserve n site)
unfolding try_zeroed
zeroed-DecryptHonest can_reserve n site = ground arith

-- A derivation refuses a value of the package only where it lies outside the bounds that the
-- refusal names: an iteration count, an Argon2 cost or the length of a salt; it is assumed that the
-- crate admits some length of a salt and that its greatest is below that of a buffer.
pub derive_key-DecryptHonest :
    (crypto : Crypto)
    → AdmitsSalts crypto.argon2
    → (row : EntryEncryption) (sk : Bytes) (limits : DecryptLimits)
    → Refuses DecryptHonest (derive_key crypto row sk limits)
unfolding derive_key
derive_key-DecryptHonest crypto admits row sk limits =
    Refuses-guard DecryptHonest _ _ _ (λ t. tt)
      (Refuses->>= DecryptHonest _ _
        (zeroed-DecryptHonest crypto.host.can_reserve (unsigned_abs row.derived_key_len)
          AllocationSite.derived_key)
        (λ buffer e.
          derive_with-DecryptHonest crypto admits row.kdf sk limits
            (unsigned_abs row.derived_key_len)))
