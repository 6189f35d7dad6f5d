-- ===== src/Manifest/Parse/Malformed.antt =====
-- src/manifest.rs: a document with an event that cannot be read.
use odf_crypto.Prelude.{
  Bool, true, false, not, none, some, List, [], ◌∷◌, ◌++◌, ◌≡◌, refl, ap, ◌∙◌, Bytes, is_some, any,
  Option-cases, inl, inr,
}
use odf_crypto.Manifest.Import.{Import, new}
use odf_crypto.Manifest.Parse.{
  RawAttr, bad_attr, attr, XmlEvent, start, end, text, cdata, general_ref, syntax_error, other,
  collect_attrs, on_event, parse_manifest,
}
use odf_crypto.Manifest.Parse.Run.{run, result, parse_events-run}

-- An attribute, and an event, that makes the reader give the document up.
abbrev pub is_bad_attr : RawAttr → Bool
is_bad_attr bad_attr = true
is_bad_attr (attr key none) = true
is_bad_attr (attr key (some raw)) = false

abbrev pub gives_up : XmlEvent → Bool
gives_up (start name attrs) = any is_bad_attr attrs
gives_up (text t) = not (is_some t)
gives_up (cdata t) = not (is_some t)
gives_up (general_ref name) = not (is_some name)
gives_up syntax_error = true
gives_up _ = false

collect_attrs-bad :
    (attrs : List RawAttr) → any is_bad_attr attrs ≡ true → collect_attrs attrs ≡ none
unfolding collect_attrs any
collect_attrs-bad [] h = cc
collect_attrs-bad (bad_attr ∷ attrs) h = refl
collect_attrs-bad (attr key none ∷ attrs) h = refl
collect_attrs-bad (attr key (some raw) ∷ attrs) h = rw (collect_attrs-bad attrs h)

on_event-gives_up : (s : Import) (e : XmlEvent) → gives_up e ≡ true → on_event s e ≡ none
unfolding on_event
on_event-gives_up s (start name attrs) h = rw (collect_attrs-bad attrs h, on_event)
on_event-gives_up s (text none) h = refl
on_event-gives_up s (text (some t)) h = cc
on_event-gives_up s (cdata none) h = refl
on_event-gives_up s (cdata (some t)) h = cc
on_event-gives_up s (general_ref none) h = refl
on_event-gives_up s (general_ref (some t)) h = cc
on_event-gives_up s (end name) h = cc
on_event-gives_up s other h = cc
on_event-gives_up s syntax_error h = refl

run-gives_up :
    (s : Import) (before : List XmlEvent) (e : XmlEvent) (after : List XmlEvent)
    → gives_up e ≡ true
    → run s (before ++ e ∷ after) ≡ none
unfolding run
run-gives_up s [] e after h = rw (on_event-gives_up s e h, run)
run-gives_up s (b ∷ before) e after h = elim (Option-cases (on_event s b)) [
  | inl x ↦ rw (x, run)
  | inr (s', x) ↦ rw (x, run) (run-gives_up s' before e after h)
]

-- One event that the reader cannot make sense of, anywhere in the document, leaves no row at all:
-- not the rows that were already complete either.
pub malformed_yields_no_rows :
    (reader : Bytes → List XmlEvent) (xml : Bytes) (before : List XmlEvent) (e : XmlEvent)
    (after : List XmlEvent)
    → reader xml ≡ before ++ e ∷ after
    → gives_up e ≡ true
    → parse_manifest reader xml ≡ []
unfolding parse_manifest
malformed_yields_no_rows reader xml before e after h g =
    rw h
      (parse_events-run new (before ++ e ∷ after) ∙ ap result (run-gives_up new before e after g))
