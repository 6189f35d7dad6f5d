-- ===== src/Tests/Kdf.antt =====
-- src/kdf.rs, src/ms1252.rs and src/limits.rs on concrete input.
use odf_crypto.Prelude.{◌≡◌, not, [], ◌∷◌, Str, codes, length, pos, chunks_64, arith}
use odf_crypto.Kdf.{sha1_init, digest_slot, staroffice_sha1}
use odf_crypto.Kdf.StarOffice.{padded_with, star_zeros, staroffice_sha1-padding}
use odf_crypto.Kdf.Argon2.{derive_argon2id}
use odf_crypto.Kdf.Argon2.Checks.{is_blaming, is_runnable, derive_argon2id-blames}
use odf_crypto.Decrypt.Ceilings.{default_limits}
use odf_crypto.Tests.Keys.{hashes, first_block, in_order, argon2, host}

abbrev a_password : Str
a_password = b'a' ∷ 0x20AC ∷ 0x1F600 ∷ []

staroffice_sha1-padding_example :
    staroffice_sha1 hashes (codes "password")
    ≡ digest_slot (
        first_block sha1_init
          (chunks_64 (padded_with (star_zeros (length (codes "password"))) (codes "password"))))
staroffice_sha1-padding_example =
    staroffice_sha1-padding hashes in_order (codes "password") (omega arith)

-- Zero lanes are a parameter that is refused.
derive_argon2id-blames_example :
    is_blaming (
      derive_argon2id argon2 host
        (codes "key")
        (codes "saltsalt")
        (pos 3)
        (pos 65536)
        (pos 0)
        default_limits
        32)
    ≡ not (is_runnable argon2 default_limits (codes "saltsalt") (pos 3) (pos 65536) (pos 0))
derive_argon2id-blames_example =
    derive_argon2id-blames argon2 (omega arith) (omega arith) host (codes "key") (codes "saltsalt")
      (pos 3) (pos 65536) (pos 0) default_limits 32
