-- ===== src/Manifest/Parse/Run.antt =====
-- src/manifest.rs: the events of a document as a run of the importer.
use odf_crypto.Prelude.{
  not, Option, none, some, List, [], ◌∷◌, ◌++◌, ◌≡◌, refl, ap, if◌then◌else◌, is_empty,
  Option-cases, inl, inr,
}
use odf_crypto.Types.{PropertyBag}
use odf_crypto.Manifest.Import.{Import}
use odf_crypto.Manifest.Parse.{XmlEvent, on_event, parse_events}

-- The state after the events, unless one of them gives the document up.
unfoldable pub run : Import → List XmlEvent → Option Import
run s [] = some s
run s (e ∷ events) = elim (on_event s e) [ none ↦ none | some s' ↦ run s' events ]

abbrev pub result : Option Import → List PropertyBag
result none = []
result (some s) = if not (is_empty s.stack) then [] else s.bags

pub parse_events-run :
    (s : Import) (events : List XmlEvent) → parse_events s events ≡ result (run s events)
unfolding parse_events run
parse_events-run s [] = refl
parse_events-run s (e ∷ events) = elim (Option-cases (on_event s e)) [
  | inl h ↦ rw (h, parse_events, run)
  | inr (s', h) ↦ rw (h, parse_events, run) (parse_events-run s' events)
]

pub run-append :
    (s t : Import) (before after : List XmlEvent)
    → run s before ≡ some t
    → run s (before ++ after) ≡ run t after
unfolding run
run-append s t [] after h = ap (λ o. elim o [ none ↦ none | some u ↦ run u after ]) h
run-append s t (e ∷ before) after h = elim (Option-cases (on_event s e)) [
  | inl x ↦ rw (x, run) (cc (rw (x, run) at h))
  | inr (s', x) ↦ rw (x, run) (run-append s' t before after (rw (x, run) at h))
]
