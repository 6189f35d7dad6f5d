-- ===== src/Encrypt/Manifest/Read.antt =====
-- src/encrypt.rs and src/manifest.rs: the written manifest, read by the importer.
use odf_crypto.Prelude.{
  ℕ, suc, ◌^◌, ◌<◌, Option, some, List, [], ◌∷◌, ◌≡◌, ap, ◌∙◌, subst, Str, Bytes, All, decimal_text,
  pos, unwrap_or, Result, ok, err, map_err,
}
use odf_crypto.Manifest.LoInt.{parse_i64}
use odf_crypto.Manifest.Base64.{decode_b64, encode_b64}
use odf_crypto.Manifest.Base64.RoundTrip.{IsByte, decode-encode}
use odf_crypto.Manifest.Import.{new}
use odf_crypto.Manifest.Parse.{XmlEvent, parse_events, parse_manifest}
use odf_crypto.Manifest.Parse.Run.{result, parse_events-run}
use odf_crypto.Encrypt.Params.{Argon2Params}
use odf_crypto.Encrypt.Manifest.{Writer, WriterEvent, manifest_events, build_manifest}
use odf_crypto.Encrypt.Manifest.Escape.{
  IsStable, digits-cons, parse_i64-decimal_text, parse_i32-decimal_text,
}
use odf_crypto.Encrypt.Manifest.Stable.{
  encode_b64-IsStable, decimal_text-IsStable, manifest_events-IsWritable,
}
use odf_crypto.Encrypt.Manifest.Written.{read_back, import_events, run-read_back}
use odf_crypto.Encrypt.Manifest.Row.{row_bag, import-manifest_events}

-- What the XML crate documents of its writer and reader together: the reader gives the events that
-- were written, attribute values as they stand in the file, which is escaped, and an empty element
-- as its two tags.
abbrev pub ReadsBack : (Bytes → List XmlEvent) → Writer → Type 0
ReadsBack reader writer =
    (events : List WriterEvent) (xml : Bytes)
    → writer events ≡ ok xml
    → reader xml ≡ read_back events

-- The costs as the caller gave them.
abbrev pub costs : ℕ → ℕ → ℕ → Argon2Params
costs t m p = record { t = pos t; m_kib = pos m; p = pos p }

events-row :
    (size t m p : ℕ) (iv salt : Bytes) (media_type : Option Str)
    → size < 2 ^ 63
    → suc t < 2 ^ 31
    → suc m < 2 ^ 31
    → suc p < 2 ^ 31
    → All IsByte iv
    → All IsByte salt
    → result (
        some (
          import_events new (
            manifest_events
              (decimal_text size)
              (encode_b64 iv)
              (encode_b64 salt)
              media_type
              (decimal_text (suc t))
              (decimal_text (suc m))
              (decimal_text (suc p)))))
      ≡ row_bag size iv salt media_type (suc t) (suc m) (suc p) ∷ []
events-row size t m p iv salt media_type hs ht hm hp hi hl =
    let (c, s, e) = digits-cons size size in
    let text : decimal_text size ≡ c ∷ s = unfold decimal_text in e in
    let parse_size : parse_i64 (c ∷ s) ≡ pos size =
      subst (λ x. parse_i64 x ≡ pos size) text (parse_i64-decimal_text size hs) in
    let read =
      import-manifest_events s (encode_b64 iv) (encode_b64 salt) (decimal_text (suc t))
        (decimal_text (suc m)) (decimal_text (suc p)) c t m p (parse_i32-decimal_text (suc t) ht)
        (parse_i32-decimal_text (suc m) hm) (parse_i32-decimal_text (suc p) hp) media_type size
        parse_size in
    ap
      (λ x. result (
        some (
          import_events new (
            manifest_events x (encode_b64 iv) (encode_b64 salt) media_type (decimal_text (suc t))
              (decimal_text (suc m)) (decimal_text (suc p))))))
      text
    ∙ read
    ∙ ap (λ (b : Bytes × Bytes). row_bag size b.0 b.1 media_type (suc t) (suc m) (suc p) ∷ [])
        (ap (λ x. (x, decode_b64 (encode_b64 salt))) (decode-encode iv hi)
          ∙ ap (λ x. (iv, x)) (decode-encode salt hl))

of_map_err : {E F A : Type 0} (f : E → F) (r : Result E A) (a : A) → map_err f r ≡ ok a → r ≡ ok a
of_map_err f (ok b) a h = cc
of_map_err f (err e) a h = cc

module _ (reader : Bytes → List XmlEvent) (writer : Writer) (reads : ReadsBack reader writer) where
  pub parse_manifest-build_manifest :
      (size t m p : ℕ) (iv salt xml : Bytes) (media_type : Option Str)
      → size < 2 ^ 63
      → suc t < 2 ^ 31
      → suc m < 2 ^ 31
      → suc p < 2 ^ 31
      → All IsByte iv
      → All IsByte salt
      → All IsStable (unwrap_or media_type [])
      → build_manifest writer (pos size) iv salt media_type (costs (suc t) (suc m) (suc p)) ≡ ok xml
      → parse_manifest reader xml ≡ row_bag size iv salt media_type (suc t) (suc m) (suc p) ∷ []
  unfolding parse_manifest build_manifest
  parse_manifest-build_manifest size t m p iv salt xml media_type hs ht hm hp hi hl stable wrote =
      let events =
        manifest_events (decimal_text size) (encode_b64 iv) (encode_b64 salt) media_type
          (decimal_text (suc t)) (decimal_text (suc m)) (decimal_text (suc p)) in
      ap (parse_events new) (reads events xml (of_map_err _ (writer events) xml wrote))
      ∙ parse_events-run new (read_back events)
      ∙ ap result (
          run-read_back new events (
            manifest_events-IsWritable _ _ _ _ _ _ media_type (decimal_text-IsStable size)
              (encode_b64-IsStable iv) (encode_b64-IsStable salt) stable
              (decimal_text-IsStable (suc t)) (decimal_text-IsStable (suc m))
              (decimal_text-IsStable (suc p))))
      ∙ events-row size t m p iv salt media_type hs ht hm hp hi hl
