-- ===== src/ZipErr.antt =====
-- src/zip_err.rs: the text of an error of the zip crate, as `Zip(String)` quotes it.
use odf_crypto.Prelude.{ℕ, Str, codes, ◌++◌, decimal_text}

-- The errors that the zip crate declares: `io` with the text of the error, an archive that is
-- invalid with a literal's text or with one made at run time, and `other` for a variant to come.
pub data ZipError : Type 0 where
  io invalid_archive invalid_archive_owned unsupported_archive other : Str → ZipError
  file_not_found invalid_password decompressed_size_unknown : ZipError
  compression_method_not_supported : ℕ → ZipError
  decompressed_size_limit_exceeded : ℕ → ℕ → ZipError

unfoldable pub message : ZipError → Str
message (io error) = codes "i/o error: " ++ error
message (invalid_archive s) = codes "invalid Zip archive: " ++ s
message (invalid_archive_owned s) = codes "invalid Zip archive"
message (unsupported_archive s) = codes "unsupported Zip archive: " ++ s
message file_not_found = codes "specified file not found in archive"
message invalid_password = codes "provided password is incorrect"
message (compression_method_not_supported id) =
    codes "compression method not supported: " ++ decimal_text id
message (decompressed_size_limit_exceeded size limit) =
    codes "decompressed size " ++ decimal_text size ++ codes " exceeds limit " ++ decimal_text limit
message decompressed_size_unknown =
    codes "decompressed size is unknown, so a size limit cannot be checked"
message (other error) = codes "zip error (unrecognized variant)"
