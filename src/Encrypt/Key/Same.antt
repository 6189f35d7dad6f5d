-- ===== src/Encrypt/Key/Same.antt =====
-- src/encrypt.rs and src/decrypt.rs: the key that a package is written under is the one that its
-- row derives.
use odf_crypto.Prelude.{
  as_bytes, zeros, some, ℕ, pos, Bool, true, ◌≡◌, refl, sym, ◌∙◌, arith, Str, Bytes, Result, ok,
  err, is_ok, ◌>>=◌, map_err,
}
use odf_crypto.Kdf.{start_key}
use odf_crypto.Kdf.Argon2.{
  Argon2Crate, Host, check_argon2, check_p, derive_argon2id, derive_checked,
}
use odf_crypto.Kdf.Argon2.Checks.{is_runnable, check_argon2-exact}
use odf_crypto.Decrypt.Ceilings.{DecryptLimits}
use odf_crypto.Decrypt.Errors.{DecryptError, AllocationSite, try_zeroed}
use odf_crypto.Decrypt.Keys.{Crypto, derive_key, derive_with, find_key, attempt}
use odf_crypto.Encrypt.Key.{derive_write_key, write_limits}
use odf_crypto.Encrypt.Detected.{written_row}

module _ (crate : Argon2Crate) (limits : DecryptLimits) (salt : Bytes) (t m p : ℕ) where
  -- What passes the checks is the costs as they were given.
  check_argon2-costs :
      is_runnable crate limits salt (pos t) (pos m) (pos p) ≡ true
      → check_argon2 crate limits salt (pos t) (pos m) (pos p) ≡ ok (m, t, p)
  unfolding check_argon2 check_p
  check_argon2-costs h = ground arith

  -- Past the checks, the limits play no part.
  derive_argon2id-checked :
      (host : Host) (sk : Bytes) (n : ℕ)
      → is_runnable crate limits salt (pos t) (pos m) (pos p) ≡ true
      → derive_argon2id crate host sk salt (pos t) (pos m) (pos p) limits n
        ≡ derive_checked crate host sk salt n (m, t, p)
  unfolding derive_argon2id
  derive_argon2id-checked host sk n h = rw (check_argon2-costs h) refl

of_map_err-ok :
    {E F A : Type 0} (f : E → F) (r : Result E A) (a : A) → map_err f r ≡ ok a → r ≡ ok a
of_map_err-ok f (ok b) a h = cc
of_map_err-ok f (err e) a h = cc

is_ok-first :
    {E A B : Type 0} (r : Result E A) (f : A → Result E B) (b : B) → r >>= f ≡ ok b → is_ok r ≡ true
is_ok-first (ok a) f b h = refl
is_ok-first (err e) f b h = cc

-- The key that a package is written under is found again from its password and its row: the first
-- start key derives it, if the costs are within the reader's limits, its host grants the key's 32
-- bytes, and the test on the member accepts the key.
pub find_key-written :
    (crypto : Crypto) (limits : DecryptLimits) (accepts : Bytes → Result DecryptError Bool)
    (password : Str) (size : ℕ) (iv salt key : Bytes) (t m p : ℕ)
    → derive_write_key crypto.hashes crypto.argon2 crypto.host password salt
        (record { t = pos t; m_kib = pos m; p = pos p })
      ≡ ok key
    → is_runnable crypto.argon2 limits salt (pos t) (pos m) (pos p) ≡ true
    → crypto.host.can_reserve 32 ≡ true
    → accepts key ≡ ok true
    → find_key crypto (written_row size iv salt t m p) limits accepts password ≡ ok key
unfolding derive_write_key find_key attempt derive_key derive_with try_zeroed start_key
find_key-written crypto limits accepts password size iv salt key t m p wrote runs grants accepted =
    let sk = crypto.hashes.sha256_digest (as_bytes password) in
    let wrote' : derive_argon2id crypto.argon2 crypto.host sk salt (pos t) (pos m) (pos p)
          write_limits 32
        ≡ ok key =
      of_map_err-ok _ _ key wrote in
    let passes : is_runnable crypto.argon2 write_limits salt (pos t) (pos m) (pos p) ≡ true =
      sym (check_argon2-exact crypto.argon2 write_limits salt (pos t) (pos m) (pos p))
      ∙ is_ok-first (check_argon2 crypto.argon2 write_limits salt (pos t) (pos m) (pos p))
          (derive_checked crypto.argon2 crypto.host sk salt 32) key
          (unfold derive_argon2id in wrote') in
    let again : derive_argon2id crypto.argon2 crypto.host sk salt (pos t) (pos m) (pos p) limits 32
        ≡ ok key =
      derive_argon2id-checked crypto.argon2 limits salt t m p crypto.host sk 32 runs
      ∙ sym (derive_argon2id-checked crypto.argon2 write_limits salt t m p crypto.host sk 32 passes)
      ∙ wrote' in
    let row = written_row size iv salt t m p in
    let buffer : try_zeroed crypto.host.can_reserve 32 AllocationSite.derived_key ≡ ok (zeros 32) =
      rw (try_zeroed, grants) refl in
    let derived : derive_key crypto row sk limits ≡ ok key =
      rw (derive_key, buffer, derive_with, again) refl in
    let tried : attempt crypto row limits accepts sk ≡ ok (some key) =
      rw (attempt, derived, accepted) refl in
    rw (find_key, tried) refl
