-- ===== src/Encrypt/Run.antt =====
-- src/encrypt_stream.rs: the whole of `encrypt`. The generator of random bytes and the caller's
-- reader are parameters; the reader is what its seeks and reads give, in the order in which the
-- code asks.
use odf_crypto.Prelude.{
  ℕ, ◌^◌, Bool, true, false, Option, none, some, List, ◌++◌, Str, Bytes, codes, decimal_text, pos,
  leb, ltb, is_empty, Result, ok, err, ◌>>=◌, ◌>>◌, refuse_if, map_err,
}
use odf_crypto.ZipErr.{ZipError, message}
use odf_crypto.Kdf.{Hashes}
use odf_crypto.Kdf.Argon2.{Argon2Crate, Host}
use odf_crypto.Limits.{payload_ceiling}
use odf_crypto.Manifest.Parse.{XmlEvent}
use odf_crypto.Classify.Members.{ZipFile, Archive}
use odf_crypto.Classify.Package.{classify_latched}
use odf_crypto.Stream.Source.{Source}
use odf_crypto.Stream.Gcm.{AesCrates}
use odf_crypto.Stream.Deflate.{Compressor}
use odf_crypto.Encrypt.Params.{Argon2Params, EncryptError, wholesome, libreoffice_default}
use odf_crypto.Encrypt.MediaType.{resolve_mimetype}
use odf_crypto.Encrypt.Key.{derive_write_key, screen_input}
use odf_crypto.Encrypt.Manifest.{Writer, build_manifest}
use odf_crypto.Encrypt.Payload.{ZipOut, write_package}

-- The answers of the input: what `classify` opens, the two seeks to the start, what the archive
-- gives for `mimetype` when it is opened again, the length, and the bytes from the start.
pub record PackageInput : Type 0 where
  pub opened : Option Archive
  pub rewound : Result Str Unit
  pub rewound_again : Result Str Unit
  pub reopened : Result ZipError (Option ZipFile)
  pub len : Result Str ℕ
  pub source : Source

-- `ceiling.filter(|&c| size > c)`
abbrev pub check_ceiling : Option ℕ → ℕ → Result EncryptError Unit
check_ceiling none size = ok tt
check_ceiling (some ceiling) size = refuse_if (ltb ceiling size) (
    EncryptError.deflate (
      codes "input "
      ++ decimal_text size
      ++ codes " bytes exceeds ceiling "
      ++ decimal_text ceiling))

module _ (crates : AesCrates) (miniz : Compressor) (carries_no_more : Bytes → Bool) (out : ZipOut)
    (host : Host) (hashes : Hashes) (argon2 : Argon2Crate) (writer : Writer)
    (from_utf8_lossy : Bytes → Str) (reader : Bytes → List XmlEvent) (utf8_error : Bytes → Str)
    (fill : Bool → ℕ → Result Str Bytes) where
  -- `fill` is asked for the salt at `true` and for the vector at `false`.
  abbrev random_bytes : Bool → ℕ → Result EncryptError Bytes
  random_bytes which len = map_err EncryptError.random (fill which len)

  -- From the length of the input on.
  unfoldable pub encrypt_sized :
      Str → Argon2Params → Option ℕ → PackageInput → Option Str → ℕ → Result EncryptError out.State
  encrypt_sized password params ceiling input mimetype size = do
    check_ceiling ceiling size
    refuse_if (leb (2 ^ 63) size)
        (EncryptError.internal (codes "input of " ++ decimal_text size ++ codes " bytes"))
    salt ← random_bytes true wholesome.salt_len
    iv ← random_bytes false wholesome.iv_len
    key ← derive_write_key hashes argon2 host password salt params
    manifest_xml ← build_manifest writer (pos size) iv salt mimetype params
    write_package crates miniz carries_no_more out host mimetype key iv manifest_xml input.source
        size

  unfoldable pub run : Str → Argon2Params → Option ℕ → PackageInput → Result EncryptError out.State
  run password params ceiling input = do
    class ← map_err EncryptError.classify (classify_latched from_utf8_lossy reader input.opened)
    screen_input class
    map_err EncryptError.io input.rewound
    file ← map_err (λ e. EncryptError.zip (message e)) input.reopened
    mimetype ← resolve_mimetype utf8_error file class.media_type
    size ← map_err EncryptError.io input.len
    map_err EncryptError.io input.rewound_again
    encrypt_sized password params ceiling input mimetype size

  -- The first error of the caller's reader comes before any other answer.
  unfoldable pub encrypt_with_params_to :
      Option Str → Str → Argon2Params → PackageInput → Result EncryptError out.State
  encrypt_with_params_to latch password params input = do
    refuse_if (is_empty password) EncryptError.empty_password
    elim latch [ some error ↦ err (EncryptError.io error) | none ↦ run password params none input ]

  unfoldable pub encrypt_slice :
      Str → Argon2Params → ℕ → PackageInput → Result EncryptError out.State
  encrypt_slice password params ceiling input = do
    refuse_if (is_empty password) EncryptError.empty_password
    run password params (some ceiling) input

  -- `encrypt_with_params`, with `DEFLATE_CEILING`
  unfoldable pub encrypt_with_params :
      Str → Argon2Params → PackageInput → Result EncryptError out.State
  encrypt_with_params password params input = encrypt_slice password params payload_ceiling input

  unfoldable pub encrypt : Str → PackageInput → Result EncryptError out.State
  encrypt password input = encrypt_with_params password libreoffice_default input
