-- ===== src/Manifest/Parse/Nested.antt =====
-- src/manifest.rs: a well nested document is read to its end.
use odf_crypto.Prelude.{false, none, some, List, [], ◌∷◌, ◌++◌, ◌≡◌, refl, ap, ◌∙◌, Str, Bytes, any}
use odf_crypto.Manifest.Import.{Import, new}
use odf_crypto.Manifest.Element.{start_element, end_element, characters}
use odf_crypto.Manifest.Entity.{expand_ref, normalize_attr_value}
use odf_crypto.Manifest.Element.Stack.{element-stack}
use odf_crypto.Manifest.Parse.{
  RawAttr, bad_attr, attr, XmlEvent, start, end, text, cdata, general_ref, syntax_error, other,
  collect_attrs, on_event, parse_manifest,
}
use odf_crypto.Manifest.Parse.Run.{run, result, parse_events-run, run-append}
use odf_crypto.Manifest.Parse.Malformed.{is_bad_attr, gives_up}

-- The events of well nested content: an element ends by its own raw name.
abbrev pub IsLeaf : XmlEvent → Type 0
IsLeaf (start name attrs) = ⊥
IsLeaf (end name) = ⊥
IsLeaf e = gives_up e ≡ false

pub data IsNested : List XmlEvent → Type 0 where
  done : IsNested []
  leaf : {e : XmlEvent} {es : List XmlEvent} → IsLeaf e → IsNested es → IsNested (e ∷ es)
  element :
      {name : Str} {attrs : List RawAttr} {body es : List XmlEvent}
      → any is_bad_attr attrs ≡ false
      → IsNested body
      → IsNested es
      → IsNested (start name attrs ∷ (body ++ end name ∷ es))

-- The run gets through the events, and ends with the stack that it began with.
pub record Restores (s : Import) (events : List XmlEvent) : Type 0 where
  pub last : Import
  pub runs : run s events ≡ some last
  pub stack : last.stack ≡ s.stack
  pub beyond_cap : last.beyond_cap ≡ s.beyond_cap

collect_attrs-good :
    (attrs : List RawAttr)
    → any is_bad_attr attrs ≡ false
    → (raw : List (Str × Str)) × (collect_attrs attrs ≡ some raw)
unfolding collect_attrs any
collect_attrs-good [] h = ([], refl)
collect_attrs-good (bad_attr ∷ attrs) h = cc
collect_attrs-good (attr key none ∷ attrs) h = cc
collect_attrs-good (attr key (some raw) ∷ attrs) h =
    let (rest, e) = collect_attrs-good attrs h in ((key, normalize_attr_value raw) ∷ rest, rw e)

on_event-IsLeaf :
    (s : Import) (e : XmlEvent)
    → IsLeaf e
    → (t : Import) × (on_event s e ≡ some t) × (t.stack ≡ s.stack) × (t.beyond_cap ≡ s.beyond_cap)
unfolding on_event characters
on_event-IsLeaf s (start name attrs) h = absurd h
on_event-IsLeaf s (end name) h = absurd h
on_event-IsLeaf s (text none) h = cc
on_event-IsLeaf s (text (some t)) h = (characters s t, refl, refl, refl)
on_event-IsLeaf s (cdata none) h = cc
on_event-IsLeaf s (cdata (some t)) h = (characters s t, refl, refl, refl)
on_event-IsLeaf s (general_ref none) h = cc
on_event-IsLeaf s (general_ref (some t)) h = (characters s (expand_ref t), refl, refl, refl)
on_event-IsLeaf s syntax_error h = cc
on_event-IsLeaf s other h = (s, refl, refl, refl)

Restores-cons :
    (s u : Import) (e : XmlEvent) (es : List XmlEvent)
    → on_event s e ≡ some u
    → u.stack ≡ s.stack
    → u.beyond_cap ≡ s.beyond_cap
    → Restores u es
    → Restores s (e ∷ es)
unfolding run
Restores-cons s u e es x st b r = record {
  last = r.last;
  runs = rw (x, run) r.runs;
  stack = r.stack ∙ st;
  beyond_cap = r.beyond_cap ∙ b;
}

run-element :
    (s u : Import) (name : Str) (attrs : List RawAttr) (raw : List (Str × Str))
    (body es : List XmlEvent)
    → collect_attrs attrs ≡ some raw
    → run (start_element s name raw) body ≡ some u
    → run s (start name attrs ∷ (body ++ end name ∷ es)) ≡ run (end_element u name) es
unfolding run on_event
run-element s u name attrs raw body es c r =
    rw (c, run, on_event) (run-append (start_element s name raw) u body (end name ∷ es) r)

pub IsNested-Restores :
    {events : List XmlEvent} → IsNested events → (s : Import) → Restores s events
unfolding run
IsNested-Restores done s = record { last = s; runs = refl; stack = refl; beyond_cap = refl }
IsNested-Restores (leaf {e} {es} h n) s =
    let (u, x, st, b) = on_event-IsLeaf s e h in
    Restores-cons s u e es x st b (IsNested-Restores n u)
IsNested-Restores (element {name} {attrs} {body} {es} good inner n) s =
    let (raw, c) = collect_attrs-good attrs good in
    let i = IsNested-Restores inner (start_element s name raw) in
    let k = element-stack s i.last name raw i.stack i.beyond_cap in
    let r = IsNested-Restores n (end_element i.last name) in
    record {
      last = r.last;
      runs = run-element s i.last name attrs raw body es c i.runs ∙ r.runs;
      stack = r.stack ∙ k.0;
      beyond_cap = r.beyond_cap ∙ k.1;
    }

-- A well nested document is read to its end, and `parse_manifest` returns the rows that its last
-- state has gathered, however deep the elements nest.
pub parse_manifest-IsNested :
    (reader : Bytes → List XmlEvent) (xml : Bytes)
    → IsNested (reader xml)
    → (last : Import) × (run new (reader xml) ≡ some last) × (parse_manifest reader xml ≡ last.bags)
unfolding parse_manifest
parse_manifest-IsNested reader xml n =
    let r = IsNested-Restores n new in
    (r.last, r.runs, parse_events-run new (reader xml) ∙ ap result r.runs ∙ rw r.stack)
