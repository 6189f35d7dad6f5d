-- ===== src/Manifest/Element/Stack.antt =====
-- src/manifest.rs: what `start_element` and `end_element` do to the stack of open elements.
use odf_crypto.Prelude.{
  ℕ, suc, ◌+◌, ◌≤◌, ◌<◌, Bool, true, false, ◌||◌, none, List, [], ◌∷◌, ◌≡◌, refl, sym, ap, ◌∙◌, ◌⊎◌,
  inl, inr, arith, Str, str_eq, str_eq_iff, ltb, leb, if◌then◌else◌, length, Assoc, get, Bool-cases,
  Option-cases,
}
use odf_crypto.Manifest.Import.{
  Import, StackFrame, max_depth, convert_name_with_ns, convert_name, converted_start, split_attrs,
  push_name_and_namespaces, invalidate_top, invalidate_current,
}
use odf_crypto.Manifest.Element.{
  start_level_1, start_level_2, start_level_3, start_level_4, start_level_5, start_level_6,
  start_level, start_pushed, start_element, close_file_entry, close_encrypted_key, close_row,
  close_slot, pop, pop_frame, end_open, end_element,
}
use odf_crypto.Manifest.Element.Handlers.{
  Keeps, Keeps-refl, IsCoherent, do_encrypted_key-Keeps, do_encrypted_cipher_value-Keeps,
  do_encrypted_key_id-Keeps, do_encrypted_key_packet-Keeps, do_file_entry-Keeps,
  do_encryption_method-Keeps, do_encryption_data-Keeps, do_algorithm-Keeps, do_start_key_alg-Keeps,
  do_key_derivation-Keeps,
}
use odf_crypto.Uris

-- The start of an element keeps all frames, and may mark the top one invalid.
pub record Starts (s s' : Import) : Type 0 where
  pub stack : (s'.stack ≡ s.stack) ⊎ (s'.stack ≡ invalidate_top s.stack)
  pub beyond_cap : s'.beyond_cap ≡ s.beyond_cap
  pub bags : s'.bags ≡ s.bags
  pub key_info : s.bag.key_info ≡ none → s'.bag.key_info ≡ none
  pub coherent : IsCoherent s.bag → IsCoherent s'.bag

module _ (s : Import) (converted : Str) (attrs : Assoc Str) where
  start_level_1-Starts : Starts s (start_level_1 s converted attrs)
  unfolding start_level_1 invalidate_current
  start_level_1-Starts = ground arith

  start_level_2-Starts : Starts s (start_level_2 s converted attrs)
  unfolding start_level_2 invalidate_current
  start_level_2-Starts = ground (arith, do_file_entry-Keeps s attrs, do_encrypted_key-Keeps s)

  start_level_3-Starts : Starts s (start_level_3 s converted attrs)
  unfolding start_level_3 invalidate_current
  start_level_3-Starts = ground (
    arith,
    do_encryption_data-Keeps s attrs,
    do_encrypted_key-Keeps s,
    do_encryption_method-Keeps s attrs Uris.attr_pgp_algorithm,
  )

  start_level_4-Starts : Starts s (start_level_4 s converted attrs)
  unfolding start_level_4 invalidate_current
  start_level_4-Starts = ground (
    arith,
    do_algorithm-Keeps s attrs,
    do_key_derivation-Keeps s attrs,
    do_start_key_alg-Keeps s attrs,
    do_encryption_method-Keeps s attrs Uris.attr_pgp_algorithm_lo,
  )

  start_level_5-Starts : Starts s (start_level_5 s converted)
  unfolding start_level_5 invalidate_current
  start_level_5-Starts = ground arith

  start_level_6-Starts : Starts s (start_level_6 s converted)
  unfolding start_level_6 invalidate_current
  start_level_6-Starts = ground arith

  start_level-Starts : (level : ℕ) → Starts s (start_level level s converted attrs)
  unfolding start_level invalidate_current
  start_level-Starts level = ground (
    arith, start_level_1-Starts, start_level_2-Starts, start_level_3-Starts, start_level_4-Starts,
    start_level_5-Starts, start_level_6-Starts,
  )

  pub start_pushed-Starts : Starts s (start_pushed s converted attrs)
  unfolding start_pushed invalidate_current
  start_pushed-Starts = ground (arith, start_level-Starts (length s.stack))

-- The frame that the start of an element pushes, before its level is looked at.
abbrev frame_of : Import → Str → List (Str × Str) → StackFrame
frame_of s raw_name raw_attrs =
    let namespaces = (split_attrs raw_attrs [] []).0 in
    record {
      converted_name = converted_start s.stack raw_name namespaces;
      namespaces = namespaces;
      valid = true;
    }

abbrev pub capped : Import → Bool
capped s = ltb 0 s.beyond_cap || leb max_depth (length s.stack)

-- With room on the stack an element pushes its frame, valid or not.
pub record Pushes (s : Import) (raw_name : Str) (raw_attrs : List (Str × Str)) (t : Import)
    : Type 0 where
  pub valid : Bool
  pub stack : t.stack ≡ record (frame_of s raw_name raw_attrs) { valid = valid } ∷ s.stack
  pub beyond_cap : t.beyond_cap ≡ s.beyond_cap

module _ (s : Import) (raw_name : Str) (raw_attrs : List (Str × Str)) where
  abbrev pub pushed : Import
  pushed = (push_name_and_namespaces s raw_name raw_attrs).0

  abbrev pub pushed_start : Import
  pushed_start =
      let pushed = push_name_and_namespaces s raw_name raw_attrs in
      start_pushed pushed.0 pushed.1 pushed.2

  pub start_element-capped :
      capped s ≡ true
      → start_element s raw_name raw_attrs ≡ record s { beyond_cap = s.beyond_cap + 1 }
  unfolding start_element
  start_element-capped h = rw h

  pub start_element-room : capped s ≡ false → start_element s raw_name raw_attrs ≡ pushed_start
  unfolding start_element
  start_element-room h = rw h

  pushed_start-Pushes : Pushes s raw_name raw_attrs pushed_start
  pushed_start-Pushes =
      let starts =
        start_pushed-Starts pushed (push_name_and_namespaces s raw_name raw_attrs).1
          (push_name_and_namespaces s raw_name raw_attrs).2 in
      elim starts.stack [
        | inl e ↦ record {
          valid = true;
          stack = unfold push_name_and_namespaces in e;
          beyond_cap = unfold push_name_and_namespaces in starts.beyond_cap;
        }
        | inr e ↦ record {
          valid = false;
          stack = unfold push_name_and_namespaces in e;
          beyond_cap = unfold push_name_and_namespaces in starts.beyond_cap;
        }
      ]

-- Inside an element its own raw name converts to the name of its frame.
convert_name-top :
    (frames : List StackFrame) (raw_name : Str) (namespaces : Assoc Str) (valid : Bool)
    → convert_name
        ((record {
          converted_name = converted_start frames raw_name namespaces;
          namespaces = namespaces;
          valid = valid;
        })
          ∷ frames)
        raw_name
      ≡ converted_start frames raw_name namespaces
unfolding convert_name convert_name_with_ns get
convert_name-top frames raw_name [] valid = refl
convert_name-top frames raw_name (n ∷ namespaces) valid =
    elim (Option-cases (convert_name_with_ns raw_name (n ∷ namespaces))) [
      | inl e ↦ rw (e, convert_name)
      | inr (converted, e) ↦ rw (e, convert_name)
    ]

Keeps-if : (b : Bool) {s t u : Import} → Keeps s t → Keeps s u → Keeps s (if b then t else u)
Keeps-if true h k = h
Keeps-if false h k = k

module _ (s : Import) where
  pub close_slot-Keeps : (converted : Str) (level : ℕ) → Keeps s (close_slot converted level s)
  unfolding close_slot
  close_slot-Keeps converted level = Keeps-if _ (do_encrypted_cipher_value-Keeps s) (
      Keeps-if _ (do_encrypted_key_id-Keeps s)
        (Keeps-if _ (do_encrypted_key_packet-Keeps s) (Keeps-refl s)))

  close_row-stack :
      (converted : Str) (valid : Bool)
      → ((close_row converted valid s).stack ≡ s.stack)
        × ((close_row converted valid s).beyond_cap ≡ s.beyond_cap)
  unfolding close_row close_file_entry close_encrypted_key
  close_row-stack converted valid = ground arith

abbrev closed : Str → Bool → Import → Import
closed converted valid s = close_slot converted (length s.stack) (close_row converted valid s)

closed-stack :
    (converted : Str) (valid : Bool) (s : Import)
    → ((closed converted valid s).stack ≡ s.stack)
      × ((closed converted valid s).beyond_cap ≡ s.beyond_cap)
closed-stack converted valid s =
    let row = close_row-stack s converted valid in
    let slot = close_slot-Keeps (close_row converted valid s) converted (length s.stack) in
    (slot.stack ∙ row.0, slot.beyond_cap ∙ row.1)

end_open-match :
    (f : StackFrame) (frames : List StackFrame) (s : Import)
    → end_open (f ∷ frames) s f.converted_name ≡ pop_frame (closed f.converted_name f.valid s)
unfolding end_open
end_open-match f frames s = rw ((str_eq_iff f.converted_name f.converted_name).1 refl)

end_element-open :
    (s : Import) (raw_name : Str)
    → s.beyond_cap ≡ 0
    → end_element s raw_name ≡ end_open s.stack s (convert_name s.stack raw_name)
unfolding end_element
end_element-open s raw_name b = let z : ltb 0 s.beyond_cap ≡ false = ground arith in rw z

-- The end of the element on top closes it and pops its frame.
pub end_element-closes :
    (s : Import) (f : StackFrame) (frames : List StackFrame) (raw_name : Str)
    → s.stack ≡ f ∷ frames
    → s.beyond_cap ≡ 0
    → convert_name (f ∷ frames) raw_name ≡ f.converted_name
    → end_element s raw_name ≡ pop_frame (closed f.converted_name f.valid s)
end_element-closes s f frames raw_name e b c =
    end_element-open s raw_name b
    ∙ ap (λ l. end_open l s (convert_name l raw_name)) e
    ∙ ap (λ name. end_open (f ∷ frames) s name) c
    ∙ end_open-match f frames s

end_element-pop :
    (s : Import) (f : StackFrame) (frames : List StackFrame) (raw_name : Str)
    → s.stack ≡ f ∷ frames
    → s.beyond_cap ≡ 0
    → convert_name (f ∷ frames) raw_name ≡ f.converted_name
    → ((end_element s raw_name).stack ≡ frames) × ((end_element s raw_name).beyond_cap ≡ 0)
end_element-pop s f frames raw_name e b c =
    let k = closed-stack f.converted_name f.valid s in
    let closes = end_element-closes s f frames raw_name e b c in
    (
      ap (λ (t : Import). t.stack) closes ∙ ap pop (k.0 ∙ e),
      ap (λ (t : Import). t.beyond_cap) closes ∙ k.1 ∙ b,
    )

-- The content of an element ends with the stack that it began with, and so does the element.
pub element-stack :
    (s u : Import) (raw_name : Str) (raw_attrs : List (Str × Str))
    → u.stack ≡ (start_element s raw_name raw_attrs).stack
    → u.beyond_cap ≡ (start_element s raw_name raw_attrs).beyond_cap
    → ((end_element u raw_name).stack ≡ s.stack)
      × ((end_element u raw_name).beyond_cap ≡ s.beyond_cap)
element-stack s u raw_name raw_attrs e b = elim (Bool-cases (capped s)) [
  | inl full ↦
      let start = start_element-capped s raw_name raw_attrs full in
      let more : u.beyond_cap ≡ s.beyond_cap + 1 = b ∙ ap (λ (t : Import). t.beyond_cap) start in
      let same : u.stack ≡ s.stack = e ∙ ap (λ (t : Import). t.stack) start in
      unfold end_element in ground arith
  | inr room ↦
      let start = start_element-room s raw_name raw_attrs room in
      let p = pushed_start-Pushes s raw_name raw_attrs in
      let zero_cap : s.beyond_cap ≡ 0 = ground arith in
      let popped =
        end_element-pop u (record (frame_of s raw_name raw_attrs) { valid = p.valid }) s.stack
          raw_name (e ∙ ap (λ (t : Import). t.stack) start ∙ p.stack)
          (b ∙ ap (λ (t : Import). t.beyond_cap) start ∙ p.beyond_cap ∙ zero_cap)
          (convert_name-top s.stack raw_name (split_attrs raw_attrs [] []).0 p.valid) in
      (popped.0, popped.1 ∙ sym zero_cap)
]

-- The bound on the depth of the stack, which counts what lies beyond it.
pub record IsBounded (s : Import) : Type 0 where
  pub depth : length s.stack ≤ max_depth
  pub beyond : 0 < s.beyond_cap → length s.stack ≡ max_depth

pub start_element-IsBounded :
    (s : Import) (raw_name : Str) (raw_attrs : List (Str × Str))
    → IsBounded s
    → IsBounded (start_element s raw_name raw_attrs)
start_element-IsBounded s raw_name raw_attrs h = elim (Bool-cases (capped s)) [
  | inl full ↦ rw (start_element-capped s raw_name raw_attrs full) (ground arith)
  | inr room ↦
      let p = pushed_start-Pushes s raw_name raw_attrs in
      rw (start_element-room s raw_name raw_attrs room) (
        let n : length (pushed_start s raw_name raw_attrs).stack ≡ suc (length s.stack) =
          ap length p.stack in
        let b = p.beyond_cap in record { depth = ground arith; beyond = λ more. ground arith })
]

-- Where nothing lies beyond the cap, the end of an element pops its frame or changes nothing.
abbrev PopsOrKeeps : Import → Import → Type 0
PopsOrKeeps s t = ((t.stack ≡ s.stack) ⊎ (t.stack ≡ pop s.stack)) × (t.beyond_cap ≡ s.beyond_cap)

end_open-PopsOrKeeps :
    (frames : List StackFrame) (s : Import) (converted : Str)
    → PopsOrKeeps s (end_open frames s converted)
unfolding end_open
end_open-PopsOrKeeps [] s converted = (inl refl, refl)
end_open-PopsOrKeeps (f ∷ frames) s converted =
    let k = closed-stack converted f.valid s in
    elim (Bool-cases (str_eq f.converted_name converted)) [
      | inl same ↦ rw same (inr (ap pop k.0), k.1)
      | inr other ↦ rw other (inl refl, refl)
    ]

length-pop : (frames : List StackFrame) → length (pop frames) ≤ length frames
length-pop [] = omega arith
length-pop (f ∷ frames) = omega arith

end_open-length : (s t : Import) → PopsOrKeeps s t → length t.stack ≤ length s.stack
end_open-length s t (inl e, b) = rw e (omega arith)
end_open-length s t (inr e, b) = rw e (length-pop s.stack)

pub end_element-IsBounded :
    (s : Import) (raw_name : Str) → IsBounded s → IsBounded (end_element s raw_name)
end_element-IsBounded s raw_name h = elim (Bool-cases (ltb 0 s.beyond_cap)) [
  | inl full ↦ unfold end_element in rw full (ground arith)
  | inr room ↦
      let step = end_open-PopsOrKeeps s.stack s (convert_name s.stack raw_name) in
      let n = end_open-length s (end_open s.stack s (convert_name s.stack raw_name)) step in
      let b = step.1 in
      unfold end_element in rw room (record { depth = omega arith; beyond = λ more. ground arith })
]
