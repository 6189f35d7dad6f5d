-- ===== src/Decrypt/Keys/Others.antt =====
-- src/decrypt.rs: the derivation of a key never blames the password.
use odf_crypto.Prelude.{
  ℕ, ℤ, pos, negsuc, Bool, true, false, ◌≢◌, ap, Bytes, unsigned_abs, zeros, Result, ok, err,
  map_err, Refuses, Refuses->>=, Refuses-guard,
}
use odf_crypto.Types.{EntryEncryption, Kdf}
use odf_crypto.Decrypt.Ceilings.{DecryptLimits}
use odf_crypto.Decrypt.Errors.{
  DecryptError, AllocationSite, wrong_password, host_cannot_allocate, try_zeroed, kdf_error,
}
use odf_crypto.Kdf.Argon2.{KdfError, derive_argon2id}
use odf_crypto.Decrypt.Keys.{Crypto, check_iterations, derive_with, derive_key}

-- The error is not a wrong password.
abbrev pub IsOther : DecryptError → Type 0
IsOther e = e ≢ wrong_password

pub of_never : (r : Result DecryptError Bool) → r ≢ err wrong_password → Refuses IsOther r
of_never (ok b) h = tt
of_never (err e) h = λ w. h (ap err w)

kdf_error-IsOther : (e : KdfError) → IsOther (kdf_error e)
kdf_error-IsOther (KdfError.params b) h = cc
kdf_error-IsOther (KdfError.internal s) h = cc
kdf_error-IsOther (KdfError.host_cannot_allocate n) h = cc
kdf_error-IsOther (KdfError.host_cannot_spawn n) h = cc

of_kdf : (r : Result KdfError Bytes) → Refuses IsOther (map_err kdf_error r)
of_kdf (ok key) = tt
of_kdf (err e) = kdf_error-IsOther e

iterations-IsOther : (limits : DecryptLimits) (n : ℤ) → Refuses IsOther (check_iterations limits n)
unfolding check_iterations
iterations-IsOther limits (negsuc n) = λ h. cc
iterations-IsOther limits (pos n) = Refuses-guard IsOther _ _ (ok n) (λ t h. cc) tt

derive_with-IsOther :
    (crypto : Crypto) (kdf : Kdf) (sk : Bytes) (limits : DecryptLimits) (n : ℕ)
    → Refuses IsOther (derive_with crypto kdf sk limits n)
unfolding derive_with
derive_with-IsOther crypto (Kdf.pbkdf2 i salt) sk limits n =
    Refuses->>= IsOther _ _ (iterations-IsOther limits i) (λ iters e. tt)
derive_with-IsOther crypto (Kdf.argon2id t m p salt) sk limits n =
    of_kdf (derive_argon2id crypto.argon2 crypto.host sk salt t m p limits n)
derive_with-IsOther crypto Kdf.pgp_rsa_oaep_mgf1p sk limits n = λ h. cc

zeroed-IsOther :
    (can_reserve : ℕ → Bool) (n : ℕ) (site : AllocationSite)
    → Refuses IsOther (try_zeroed can_reserve n site)
unfolding try_zeroed
zeroed-IsOther can_reserve n site =
    elim (can_reserve n)
      as (λ (b : Bool).
        Refuses IsOther
          (elim b [ true ↦ ok (zeros n) | false ↦ err (host_cannot_allocate site n) ])) [
            | true ↦ tt
            | false ↦ λ h. cc
          ]

pub derive_key-IsOther :
    (crypto : Crypto) (row : EntryEncryption) (sk : Bytes) (limits : DecryptLimits)
    → Refuses IsOther (derive_key crypto row sk limits)
unfolding derive_key
derive_key-IsOther crypto row sk limits =
    Refuses-guard IsOther _ _ _ (λ t h. cc)
      (Refuses->>= IsOther _ _
        (zeroed-IsOther crypto.host.can_reserve (unsigned_abs row.derived_key_len)
          AllocationSite.derived_key)
        (λ buffer e.
          derive_with-IsOther crypto row.kdf sk limits (unsigned_abs row.derived_key_len)))
