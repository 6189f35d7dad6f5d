-- ===== src/Tests/Writer.antt =====
-- A writer and a reader of XML that know one document.
use odf_crypto.Prelude.{
  Bool, true, false, ◌&&◌, List, [], ◌∷◌, ◌≡◌, refl, sym, ap, arith, Str, Bytes, codes, str_eq,
  str_eq_iff, if◌then◌else◌, Bool-cases, inl, inr, some, All, ltb, ok, err, decimal_text,
}
use odf_crypto.Manifest.Base64.{encode_b64}
use odf_crypto.Manifest.Base64.RoundTrip.{IsByte}
use odf_crypto.Manifest.Parse.{XmlEvent}
use odf_crypto.Encrypt.Manifest.{
  WriterEvent, decl, start, empty, end, Attrs, Writer, manifest_events,
}
use odf_crypto.Encrypt.Manifest.Written.{read_back}
use odf_crypto.Encrypt.Manifest.Read.{ReadsBack}

abbrev same_attrs : Attrs → Attrs → Bool
same_attrs [] [] = true
same_attrs ((k, v) ∷ a) ((j, w) ∷ b) = str_eq k j && (str_eq v w && same_attrs a b)
same_attrs _ _ = false

abbrev same_event : WriterEvent → WriterEvent → Bool
same_event (decl v e) (decl w f) = str_eq v w && str_eq e f
same_event (start n a) (start m b) = str_eq n m && same_attrs a b
same_event (empty n a) (empty m b) = str_eq n m && same_attrs a b
same_event (end n) (end m) = str_eq n m
same_event _ _ = false

abbrev same_events : List WriterEvent → List WriterEvent → Bool
same_events [] [] = true
same_events (e ∷ es) (f ∷ fs) = same_event e f && same_events es fs
same_events _ _ = false

same_attrs-same : (a b : Attrs) → same_attrs a b ≡ true → a ≡ b
same_attrs-same ((k, v) ∷ a) ((j, w) ∷ b) h =
    ground (arith, same_attrs-same a b, str_eq_iff k j, str_eq_iff v w)
same_attrs-same _ _ h = ground arith

same_event-same : (e f : WriterEvent) → same_event e f ≡ true → e ≡ f
same_event-same (decl v e) (decl w f) h = ground (arith, str_eq_iff v w, str_eq_iff e f)
same_event-same (start n a) (start m b) h = ground (arith, str_eq_iff n m, same_attrs-same a b)
same_event-same (empty n a) (empty m b) h = ground (arith, str_eq_iff n m, same_attrs-same a b)
same_event-same (end n) (end m) h = ground (arith, str_eq_iff n m)
same_event-same _ _ h = ground arith

same_events-same : (es fs : List WriterEvent) → same_events es fs ≡ true → es ≡ fs
same_events-same (e ∷ es) (f ∷ fs) h = ground (arith, same_event-same e f, same_events-same es fs)
same_events-same _ _ h = ground arith

-- The manifest of a package of 7 bytes.
abbrev pub iv : Bytes
iv = 1 ∷ 2 ∷ 3 ∷ 4 ∷ 5 ∷ 6 ∷ 7 ∷ 8 ∷ 9 ∷ 10 ∷ 11 ∷ 12 ∷ []

abbrev pub salt : Bytes
salt = 255 ∷ 254 ∷ 1 ∷ 2 ∷ 3 ∷ 4 ∷ 5 ∷ 6 ∷ 7 ∷ 8 ∷ 9 ∷ 10 ∷ 11 ∷ 12 ∷ 13 ∷ 14 ∷ []

abbrev pub media_type : Str
media_type = codes "application/vnd.oasis.opendocument.text"

abbrev pub document : List WriterEvent
document =
    manifest_events (decimal_text 7) (encode_b64 iv) (encode_b64 salt) (some media_type)
      (decimal_text 3) (decimal_text 65536) (decimal_text 4)

abbrev pub writer : Writer
writer events =
    if same_events events document then ok (codes "<manifest/>") else err (codes "unknown")

abbrev pub reader : Bytes → List XmlEvent
reader xml = read_back document

pub reads_back : ReadsBack reader writer
reads_back events xml h = elim (Bool-cases (same_events events document)) [
  | inl e ↦ ap read_back (sym (same_events-same events document e))
  | inr e ↦ absurd (cc (rw e at h))
]

same_attrs_refl : (a : Attrs) → same_attrs a a ≡ true
same_attrs_refl [] = refl
same_attrs_refl ((k, v) ∷ a) = ground (arith, str_eq_iff k k, str_eq_iff v v, same_attrs_refl a)

same_event_refl : (e : WriterEvent) → same_event e e ≡ true
same_event_refl (decl v e) = ground (arith, str_eq_iff v v, str_eq_iff e e)
same_event_refl (start n a) = ground (arith, str_eq_iff n n, same_attrs_refl a)
same_event_refl (empty n a) = ground (arith, str_eq_iff n n, same_attrs_refl a)
same_event_refl (end n) = ground (arith, str_eq_iff n n)

same_events_refl : (es : List WriterEvent) → same_events es es ≡ true
same_events_refl [] = refl
same_events_refl (e ∷ es) = ground (arith, same_event_refl e, same_events_refl es)

pub writer-document : writer document ≡ ok (codes "<manifest/>")
writer-document = rw (same_events_refl document) refl

abbrev are_bytes : Bytes → Bool
are_bytes [] = true
are_bytes (b ∷ bytes) = ltb b 256 && are_bytes bytes

pub of_are_bytes : (bytes : Bytes) → are_bytes bytes ≡ true → All IsByte bytes
of_are_bytes [] h = tt
of_are_bytes (b ∷ bytes) h = (ground arith, of_are_bytes bytes (ground arith))
