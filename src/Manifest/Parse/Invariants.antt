-- ===== src/Manifest/Parse/Invariants.antt =====
-- src/manifest.rs: what holds of the stack and of the rows for any document.
use odf_crypto.Prelude.{
  Option, none, some, List, [], ◌∷◌, ◌≡◌, ◌⊎◌, refl, arith, Str, Bytes, is_empty, All, Bool-cases,
  Option-cases, inl, inr,
}
use odf_crypto.Manifest.Import.{Import, new}
use odf_crypto.Manifest.Element.{start_element, end_element, characters}
use odf_crypto.Manifest.Entity.{expand_ref}
use odf_crypto.Manifest.Element.Handlers.{IsCoherent, default-IsCoherent}
use odf_crypto.Manifest.Element.Stack.{IsBounded, start_element-IsBounded, end_element-IsBounded}
use odf_crypto.Manifest.Element.Rows.{
  KeysFirst, RowsInv, start_element-RowsInv, end_element-RowsInv,
}
use odf_crypto.Manifest.Parse.{
  XmlEvent, start, end, text, cdata, general_ref, syntax_error, other, collect_attrs, on_event,
  parse_manifest,
}
use odf_crypto.Manifest.Parse.Run.{run, result, parse_events-run}

-- What holds at the start and is kept by each event holds at the end.
module _ (P : Import → Type 0)
    (step : (s s' : Import) (e : XmlEvent) → P s → on_event s e ≡ some s' → P s') where
  run_inv : (s t : Import) (events : List XmlEvent) → P s → run s events ≡ some t → P t
  unfolding run
  run_inv s t [] h r = ground arith
  run_inv s t (e ∷ events) h r = elim (Option-cases (on_event s e)) [
    | inl x ↦ cc (rw (x, run) at r)
    | inr (s', x) ↦ run_inv s' t events (step s s' e h x) (rw (x, run) at r)
  ]

characters-RowsInv : (s : Import) (t : Str) → RowsInv s → RowsInv (characters s t)
unfolding characters
characters-RowsInv s t h = record {
  rows = h.rows;
  open_row = h.open_row;
  keys = h.keys;
  open_keys = h.open_keys;
}

characters-IsBounded : (s : Import) (t : Str) → IsBounded s → IsBounded (characters s t)
unfolding characters
characters-IsBounded s t h = record { depth = h.depth; beyond = h.beyond }

-- An event that is not given up leads to a state that one of the three handlers made.
abbrev Handled : Import → XmlEvent → Import → Type 0
Handled s e s' =
    ((name : Str) × (raw_attrs : List (Str × Str)) × (s' ≡ start_element s name raw_attrs))
    ⊎ ((name : Str) × (s' ≡ end_element s name))
    ⊎ ((t : Str) × (s' ≡ characters s t))
    ⊎ (s' ≡ s)

on_event-Handled : (s s' : Import) (e : XmlEvent) → on_event s e ≡ some s' → Handled s e s'
unfolding on_event
on_event-Handled s s' (start name attrs) h = elim (Option-cases (collect_attrs attrs)) [
  | inl x ↦ cc (rw (x, on_event) at h)
  | inr (raw, x) ↦ inl (name, raw, ground (arith, x))
]
on_event-Handled s s' (end name) h = inr (inl (name, ground arith))
on_event-Handled s s' (text none) h = cc
on_event-Handled s s' (text (some t)) h = inr (inr (inl (t, ground arith)))
on_event-Handled s s' (cdata none) h = cc
on_event-Handled s s' (cdata (some t)) h = inr (inr (inl (t, ground arith)))
on_event-Handled s s' (general_ref none) h = cc
on_event-Handled s s' (general_ref (some t)) h = inr (inr (inl (expand_ref t, ground arith)))
on_event-Handled s s' syntax_error h = cc
on_event-Handled s s' other h = inr (inr (inr (ground arith)))

on_event-RowsInv : (s s' : Import) (e : XmlEvent) → RowsInv s → on_event s e ≡ some s' → RowsInv s'
on_event-RowsInv s s' e h x = elim (on_event-Handled s s' e x) [
  | inl (name, raw, y) ↦ rw y (start_element-RowsInv s name raw h)
  | inr (inl (name, y)) ↦ rw y (end_element-RowsInv s name h)
  | inr (inr (inl (t, y))) ↦ rw y (characters-RowsInv s t h)
  | inr (inr (inr y)) ↦ rw y h
]

on_event-IsBounded :
    (s s' : Import) (e : XmlEvent) → IsBounded s → on_event s e ≡ some s' → IsBounded s'
on_event-IsBounded s s' e h x = elim (on_event-Handled s s' e x) [
  | inl (name, raw, y) ↦ rw y (start_element-IsBounded s name raw h)
  | inr (inl (name, y)) ↦ rw y (end_element-IsBounded s name h)
  | inr (inr (inl (t, y))) ↦ rw y (characters-IsBounded s t h)
  | inr (inr (inr y)) ↦ rw y h
]

-- Whatever the events, the stack of open elements holds at most 16 frames, and counts elements
-- beyond that only while it is full.
pub run-IsBounded : (events : List XmlEvent) (t : Import) → run new events ≡ some t → IsBounded t
run-IsBounded events t r =
    run_inv IsBounded on_event-IsBounded new t events
      (record { depth = omega arith; beyond = λ h. absurd (omega arith) }) r

result-rows :
    (o : Option Import)
    → ((t : Import) → o ≡ some t → RowsInv t)
    → All IsCoherent (result o) × KeysFirst (result o)
result-rows none h = (tt, tt)
result-rows (some t) h = elim (Bool-cases (is_empty t.stack)) [
  | inl e ↦ rw e ((h t refl).rows, (h t refl).keys)
  | inr e ↦ rw e (tt, tt)
]

-- For any document, in each row that `parse_manifest` returns Argon2 arguments are positive, a digest
-- has its algorithm, a cipher and an initialisation vector come together, PBKDF2 comes with its salt,
-- key size and iteration count and Argon2id with its salt and key size; no row but the first carries
-- the keys of a PGP package.
pub parse_manifest_rows :
    (reader : Bytes → List XmlEvent) (xml : Bytes)
    → All IsCoherent (parse_manifest reader xml) × KeysFirst (parse_manifest reader xml)
unfolding parse_manifest
parse_manifest_rows reader xml = rw (parse_events-run new (reader xml)) (
    result-rows (run new (reader xml)) (λ t r.
      run_inv RowsInv on_event-RowsInv new t (reader xml)
        (record { rows = tt; open_row = default-IsCoherent; keys = tt; open_keys = refl }) r))
