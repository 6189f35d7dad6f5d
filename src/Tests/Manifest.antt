-- ===== src/Tests/Manifest.antt =====
-- src/manifest.rs on concrete input.
use odf_crypto.Prelude.{
  ◌-◌, ◌^◌, ◌++◌, ◌≡◌, refl, arith, true, some, [], ◌∷◌, codes, str_eq, any, All, pos, negsuc,
}
use odf_crypto.Manifest.LoInt.{
  lo_is_whitespace, skip_whitespace, digits_loop, parse_magnitude, parse_signed, parse_lo_int,
  as_i32, parse_i32,
}
use odf_crypto.Manifest.LoInt.Value.{parse_lo_int-digits}
use odf_crypto.Manifest.Base64.{
  sextet, letter, flush, put_sextet, decode_char, decode_from, decode_b64, encode_chunk, encode_b64,
}
use odf_crypto.Manifest.Base64.RoundTrip.{decode-encode}
use odf_crypto.Manifest.Entity.{normalize_attr_value}
use odf_crypto.Manifest.Import.{Import, new}
use odf_crypto.Manifest.Element.{start_element, end_element}
use odf_crypto.Manifest.Element.Handlers.{IsCoherent}
use odf_crypto.Manifest.Element.Rows.{KeysFirst}
use odf_crypto.Manifest.Element.Stack.{element-stack}
use odf_crypto.Manifest.Parse.{syntax_error, parse_manifest}
use odf_crypto.Manifest.Parse.Run.{run}
use odf_crypto.Manifest.Parse.Malformed.{malformed_yields_no_rows}
use odf_crypto.Manifest.Parse.Invariants.{parse_manifest_rows}
use odf_crypto.Manifest.Parse.Nested.{done, element, parse_manifest-IsNested}
use odf_crypto.Tests.Samples.{
  document, reader, manifest_name, manifest_attrs, entry_name, entry_attrs, entry_events,
}

parse_i32-signs :
    (parse_i32 (codes "+3") ≡ pos 3)
    × (parse_i32 (codes " -12x") ≡ negsuc 11)
    × (parse_i32 (codes "2147483648") ≡ pos 0)
    × (parse_i32 (codes "-2147483648") ≡ negsuc (2 ^ 31 - 1))
unfolding parse_i32 as_i32 parse_lo_int parse_signed parse_magnitude digits_loop skip_whitespace
    lo_is_whitespace
parse_i32-signs = (refl, refl, refl, refl)

decode_b64-vectors :
    (decode_b64 (codes "AQIDBA==") ≡ 1 ∷ 2 ∷ 3 ∷ 4 ∷ [])
    × (decode_b64 (codes "AQIDBA") ≡ 1 ∷ 2 ∷ 3 ∷ [])
    × (decode_b64 (codes "A Q\nID!") ≡ 1 ∷ 2 ∷ 3 ∷ [])
unfolding decode_b64 decode_from decode_char put_sextet flush sextet
decode_b64-vectors = (refl, refl, refl)

encode_b64-vectors :
    (encode_b64 (codes "f") ≡ codes "Zg==")
    × (encode_b64 (codes "fo") ≡ codes "Zm8=")
    × (encode_b64 (codes "foob") ≡ codes "Zm9vYg==")
unfolding encode_b64 encode_chunk letter
encode_b64-vectors = (refl, refl, refl)

normalize-references :
    (normalize_attr_value (codes "a&amp;b&#65;&#x41;") ≡ codes "a&bAA")
    × (normalize_attr_value (codes "a\r\nb\tc") ≡ codes "a b c")
unfolding normalize_attr_value str_eq
normalize-references = (refl, refl)

decode-encode_example : decode_b64 (encode_b64 (1 ∷ 2 ∷ 3 ∷ 255 ∷ [])) ≡ 1 ∷ 2 ∷ 3 ∷ 255 ∷ []
decode-encode_example =
    decode-encode (1 ∷ 2 ∷ 3 ∷ 255 ∷ [])
      (omega arith, (omega arith, (omega arith, (omega arith, tt))))

parse_lo_int-digits_example :
    parse_lo_int (codes " -42px") (negsuc (2 ^ 31 - 1)) (2 ^ 31 - 1) ≡ negsuc 41
unfolding lo_is_whitespace
parse_lo_int-digits_example =
    parse_lo_int-digits (2 ^ 31 - 1) (omega arith) (codes " ") true b'4' (codes "2") (codes "px")
      (refl, tt) (refl, (refl, tt)) refl

malformed_yields_no_rows_example :
    parse_manifest (λ _. document ++ syntax_error ∷ entry_events) [] ≡ []
malformed_yields_no_rows_example =
    malformed_yields_no_rows (λ _. document ++ syntax_error ∷ entry_events) [] document syntax_error
      entry_events refl refl

parse_manifest_rows_example :
    All IsCoherent (parse_manifest reader []) × KeysFirst (parse_manifest reader [])
parse_manifest_rows_example = parse_manifest_rows reader []

parse_manifest-IsNested_example :
    (last : Import) × (run new (reader []) ≡ some last) × (parse_manifest reader [] ≡ last.bags)
unfolding any
parse_manifest-IsNested_example = parse_manifest-IsNested reader [] (
    element {name = manifest_name} {attrs = manifest_attrs} {body = entry_events} {es = []} refl
      (element {name = entry_name} {attrs = entry_attrs} {body = []} {es = []} refl done done) done)

element-stack_example :
    ((end_element (start_element new entry_name []) entry_name).stack ≡ [])
    × ((end_element (start_element new entry_name []) entry_name).beyond_cap ≡ 0)
element-stack_example = element-stack new (start_element new entry_name []) entry_name [] refl refl
