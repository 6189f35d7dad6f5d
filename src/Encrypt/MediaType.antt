-- ===== src/Encrypt/MediaType.antt =====
-- src/encrypt.rs: the media type of the package that is written. The zip archive is a parameter,
-- as what `by_name` gives for its `mimetype` member, and so is the standard library's text for
-- bytes that are not UTF-8.
use odf_crypto.Prelude.{
  ℕ, ◌+◌, Bool, not, ◌||◌, Option, none, some, Str, Bytes, codes, ◌++◌, from_utf8, ltb, ◌==◌,
  in_range, length, find, decimal_text, hex_4, Result, ok, err, ◌>>=◌, ◌>>◌, refuse_if, map_err,
}
use odf_crypto.Classify.Members.{ZipFile, mimetype_ceiling}
use odf_crypto.Encrypt.Params.{EncryptError, mimetype, zip}

unfoldable pub is_xml_char : ℕ → Bool
is_xml_char c =
    c == b'\t'
    || c == b'\n'
    || c == b'\r'
    || in_range b' ' 0xD7FF c
    || in_range 0xE000 0xFFFD c
    || in_range 0x10000 0x10FFFF c

-- A tab, a line feed or a carriage return.
unfoldable pub is_line_space : ℕ → Bool
is_line_space c = c == b'\t' || c == b'\n' || c == b'\r'

-- `return Err` for the character that was found.
abbrev refuse_char : Option ℕ → Str → Result EncryptError Unit
refuse_char none reason = ok tt
refuse_char (some c) reason = err (mimetype (codes "contains U+" ++ hex_4 c ++ reason))

-- `map_err` of `String::from_utf8`
abbrev text_of : Option Str → Str → Result EncryptError Str
text_of none error = err (mimetype (codes "not valid UTF-8: " ++ error))
text_of (some text) error = ok text

module _ (utf8_error : Bytes → Str) where
  unfoldable pub validate_media_type : Bytes → Result EncryptError Str
  validate_media_type raw = do
    text ← text_of (from_utf8 raw) (utf8_error raw)
    refuse_char (find (λ c. not (is_xml_char c)) text) (codes ", not an XML 1.0 Char")
    refuse_char (find is_line_space text) (
        codes ", which XML attribute-value normalization would turn into a space, making the "
        ++ codes "manifest attribute disagree with the verbatim mimetype member")
    ok text

  -- `none` where `by_name` fails.
  unfoldable pub read_input_mimetype_member : Option ZipFile → Result EncryptError (Option Bytes)
  read_input_mimetype_member none = ok none
  read_input_mimetype_member (some file) = do
    buf ← map_err zip (file.read_to_end (mimetype_ceiling + 1))
    refuse_if (ltb mimetype_ceiling (length buf)) (
        mimetype (
          codes "member exceeds ceiling "
          ++ decimal_text mimetype_ceiling
          ++ codes ", which is all classify itself read"))
    ok (some buf)

  abbrev validated : Option Bytes → Option Str → Result EncryptError (Option Str)
  validated none classify_media_type = ok classify_media_type
  validated (some raw) classify_media_type = do text ← validate_media_type raw; ok (some text)

  unfoldable pub resolve_mimetype : Option ZipFile → Option Str → Result EncryptError (Option Str)
  resolve_mimetype file classify_media_type = do
    found ← read_input_mimetype_member file
    validated found classify_media_type
