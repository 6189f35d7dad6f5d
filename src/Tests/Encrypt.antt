-- ===== src/Tests/Encrypt.antt =====
-- src/encrypt.rs and src/encrypt_stream.rs on concrete input.
use odf_crypto.Prelude.{
  ◌≡◌, refl, arith, true, some, [], ◌∷◌, ◌++◌, as_bytes, utf8_char, Str, Bytes, codes, pos, ok,
  zeros,
}
use odf_crypto.Classify.Members.{ZipFile, is_folder_entry}
use odf_crypto.Classify.Package.{classify_archive}
use odf_crypto.Kdf.Argon2.{derive_argon2id, check_argon2, check_p, derive_checked, on_lane_threads}
use odf_crypto.Decrypt.Ceilings.{default_limits}
use odf_crypto.Decrypt.Keys.{find_key}
use odf_crypto.Encrypt.Key.{derive_write_key}
use odf_crypto.Encrypt.Key.Same.{find_key-written}
use odf_crypto.Encrypt.Manifest.{build_manifest}
use odf_crypto.Encrypt.Manifest.Stable.{of_are_stable}
use odf_crypto.Kdf.{start_key}
use odf_crypto.Encrypt.MediaType.{is_line_space}
use odf_crypto.Encrypt.Detected.{IsWritten, written_row, written_class, classify_archive-written}
use odf_crypto.Tests.Keys.{crypto}
use odf_crypto.Tests.Samples.{file}
use odf_crypto.Tests.Writer.{
  iv, salt, media_type, writer, reader, reads_back, writer-document, of_are_bytes,
}

abbrev a_key : Bytes
a_key = codes "password" ++ zeros 24

find_key-written_example :
    find_key crypto
      (written_row 7 iv salt 3 65536 4)
      default_limits
      (λ key. ok true)
      (codes "password")
    ≡ ok a_key
unfolding derive_write_key derive_argon2id check_argon2 check_p derive_checked on_lane_threads
    as_bytes start_key utf8_char
find_key-written_example =
    find_key-written crypto default_limits (λ key. ok true) (codes "password") 7 iv salt a_key 3
      65536 4 refl refl refl refl

abbrev a_mimetype : ZipFile
a_mimetype = file (codes "mimetype") media_type

abbrev a_payload : ZipFile
a_payload = file (codes "encrypted-package") (zeros 40)

abbrev a_manifest : ZipFile
a_manifest = file (codes "META-INF/manifest.xml") (codes "<manifest/>")

written : (name : Str) (body : Bytes) → IsWritten (λ b. b) (file name body) name
unfolding is_folder_entry
written name body = record { name_is = refl; no_folder = refl; no_descriptor = refl }

wrote :
    build_manifest writer
      (pos 7)
      iv
      salt
      (some media_type)
      (record { t = pos 3; m_kib = pos 65536; p = pos 4 })
    ≡ ok (codes "<manifest/>")
unfolding build_manifest
wrote = rw writer-document refl

classify_archive-written_example :
    classify_archive (λ b. b) reader (ok a_mimetype ∷ ok a_payload ∷ ok a_manifest ∷ [])
    ≡ ok (written_class (written_row 7 iv salt 3 65536 4) media_type)
unfolding is_line_space
classify_archive-written_example =
    classify_archive-written (λ b. b) a_mimetype a_payload a_manifest
      (written (codes "mimetype") media_type) (written (codes "encrypted-package") (zeros 40))
      (written (codes "META-INF/manifest.xml") (codes "<manifest/>")) reader writer reads_back 7 2
      65535 3 iv salt (codes "<manifest/>") media_type (some media_type) (omega arith) (omega arith)
      (omega arith) (omega arith) (of_are_bytes iv refl) (of_are_bytes salt refl)
      (of_are_stable media_type refl) wrote (omega arith) refl refl
