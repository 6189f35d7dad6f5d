-- ===== src/Manifest/Element/Rows.antt =====
-- src/manifest.rs: what the element handlers keep true of the rows.
use odf_crypto.Prelude.{
  Bool, true, false, none, List, [], ◌∷◌, ◌++◌, ◌≡◌, refl, arith, Str, if◌then◌else◌, length, All,
  All-append, ltb, Bool-cases, inl, inr, str_eq,
}
use odf_crypto.Types.{PropertyBag}
use odf_crypto.Manifest.Import.{Import, StackFrame, push_name_and_namespaces, convert_name}
use odf_crypto.Manifest.Element.{
  inherit_version, attach_keys, start_element, close_file_entry, close_encrypted_key, close_row,
  pop_frame, end_open, end_element,
}
use odf_crypto.Manifest.Element.Handlers.{IsCoherent, default-IsCoherent, Keeps}
use odf_crypto.Manifest.Element.Stack.{
  start_pushed-Starts, Starts, close_slot-Keeps, capped, pushed, start_element-capped,
  start_element-room,
}

-- The keys of a package stand on its first row alone.
abbrev pub NoKeys : PropertyBag → Type 0
NoKeys bag = bag.key_info ≡ none

abbrev pub KeysFirst : List PropertyBag → Type 0
KeysFirst [] = Unit
KeysFirst (bag ∷ bags) = All NoKeys bags

pub record RowsInv (s : Import) : Type 0 where
  pub rows : All IsCoherent s.bags
  pub open_row : IsCoherent s.bag
  pub keys : KeysFirst s.bags
  pub open_keys : NoKeys s.bag

KeysFirst-append :
    (bags : List PropertyBag) (bag : PropertyBag)
    → KeysFirst bags
    → ((bags ≡ [] → ⊥) → NoKeys bag)
    → KeysFirst (bags ++ bag ∷ [])
KeysFirst-append [] bag h k = tt
KeysFirst-append (b ∷ bags) bag h k = All-append NoKeys bags (bag ∷ []) h (k (λ e. cc e), tt)

finished : Import → PropertyBag
finished s = attach_keys s (inherit_version s)

finished-IsCoherent : (s : Import) → IsCoherent s.bag → IsCoherent (finished s)
unfolding finished
finished-IsCoherent s h = ground arith

finished-NoKeys : (s : Import) → NoKeys s.bag → (s.bags ≡ [] → ⊥) → NoKeys (finished s)
unfolding finished
finished-NoKeys s h ne = ground arith

close_file_entry-RowsInv : (s : Import) → RowsInv s → RowsInv (close_file_entry s)
unfolding close_file_entry finished
close_file_entry-RowsInv s h = record {
  rows =
      All-append IsCoherent s.bags (finished s ∷ []) h.rows (finished-IsCoherent s h.open_row, tt);
  open_row = default-IsCoherent;
  keys = KeysFirst-append s.bags (finished s) h.keys (λ ne. finished-NoKeys s h.open_keys ne);
  open_keys = refl;
}

close_encrypted_key-RowsInv : (s : Import) → RowsInv s → RowsInv (close_encrypted_key s)
unfolding close_encrypted_key
close_encrypted_key-RowsInv s h = ground arith

RowsInv-if : (b : Bool) {s t : Import} → RowsInv s → RowsInv t → RowsInv (if b then s else t)
RowsInv-if true h k = h
RowsInv-if false h k = k

close_row-RowsInv :
    (converted : Str) (valid : Bool) (s : Import)
    → RowsInv s
    → RowsInv (close_row converted valid s)
unfolding close_row
close_row-RowsInv converted valid s h =
    RowsInv-if _ (close_file_entry-RowsInv s h) (RowsInv-if _ (close_encrypted_key-RowsInv s h) h)

Keeps-RowsInv : {s t : Import} → Keeps s t → RowsInv s → RowsInv t
Keeps-RowsInv k h = record {
  rows = rw k.bags h.rows;
  open_row = k.coherent h.open_row;
  keys = rw k.bags h.keys;
  open_keys = k.key_info h.open_keys;
}

Starts-RowsInv : {s t : Import} → Starts s t → RowsInv s → RowsInv t
Starts-RowsInv k h = record {
  rows = rw k.bags h.rows;
  open_row = k.coherent h.open_row;
  keys = rw k.bags h.keys;
  open_keys = k.key_info h.open_keys;
}

pop_frame-RowsInv : (s : Import) → RowsInv s → RowsInv (pop_frame s)
pop_frame-RowsInv s h = record {
  rows = h.rows;
  open_row = h.open_row;
  keys = h.keys;
  open_keys = h.open_keys;
}

end_open-RowsInv :
    (frames : List StackFrame) (s : Import) (converted : Str)
    → RowsInv s
    → RowsInv (end_open frames s converted)
unfolding end_open
end_open-RowsInv [] s converted h = h
end_open-RowsInv (f ∷ frames) s converted h =
    elim (Bool-cases (str_eq f.converted_name converted)) [
      | inr other ↦ rw other h
      | inl same ↦
          let row = close_row-RowsInv converted f.valid s h in
          rw same (
            pop_frame-RowsInv _ (
              Keeps-RowsInv
                (close_slot-Keeps (close_row converted f.valid s) converted (length s.stack)) row))
    ]

pub end_element-RowsInv :
    (s : Import) (raw_name : Str) → RowsInv s → RowsInv (end_element s raw_name)
unfolding end_element
end_element-RowsInv s raw_name h =
    RowsInv-if (ltb 0 s.beyond_cap)
      (record { rows = h.rows; open_row = h.open_row; keys = h.keys; open_keys = h.open_keys })
      (end_open-RowsInv s.stack s (convert_name s.stack raw_name) h)

pushed-RowsInv :
    (s : Import) (raw_name : Str) (raw_attrs : List (Str × Str))
    → RowsInv s
    → RowsInv (pushed s raw_name raw_attrs)
unfolding push_name_and_namespaces
pushed-RowsInv s raw_name raw_attrs h = record {
  rows = h.rows;
  open_row = h.open_row;
  keys = h.keys;
  open_keys = h.open_keys;
}

pub start_element-RowsInv :
    (s : Import) (raw_name : Str) (raw_attrs : List (Str × Str))
    → RowsInv s
    → RowsInv (start_element s raw_name raw_attrs)
start_element-RowsInv s raw_name raw_attrs h = elim (Bool-cases (capped s)) [
  | inl full ↦
      rw (start_element-capped s raw_name raw_attrs full)
        (record { rows = h.rows; open_row = h.open_row; keys = h.keys; open_keys = h.open_keys })
  | inr room ↦
      let frame = push_name_and_namespaces s raw_name raw_attrs in
      rw (start_element-room s raw_name raw_attrs room) (
        Starts-RowsInv (start_pushed-Starts frame.0 frame.1 frame.2)
          (pushed-RowsInv s raw_name raw_attrs h))
]
