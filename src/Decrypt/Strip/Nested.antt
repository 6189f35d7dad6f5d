-- ===== src/Decrypt/Strip/Nested.antt =====
-- src/decrypt.rs: what the rewrite makes of a well nested manifest.
use odf_crypto.Prelude.{
  ℕ, suc, ◌+◌, ◌-◌, Bool, true, false, ◌&&◌, ◌||◌, ◌⊎◌, ◌↔◌, codes, str_eq, str_eq_iff, has_suffix,
  length, length-append, take, drop, take-drop, Option, none, some, List, [], ◌∷◌, ◌++◌, ◌≡◌, refl,
  sym, ap, ◌∙◌, arith, Bytes, if◌then◌else◌, Bool-cases, inl, inr, Result, ok, ◌>>=◌,
}
use mathlib.Core.List.{append_assoc, append-nil}
use odf_crypto.Decrypt.Errors.{DecryptError}
use odf_crypto.Decrypt.Strip.{
  Attributes, Event, start, empty, end, other, Xml, Rewrite, kept_attrs, is_manifest_size_attr,
  lossy_name, without_size, is_encryption_data, rewrite_event, rewrite_events, strip_manifest,
}

-- A well nested document: its elements with the names of their two tags.
mutual
  pub data Node : Type 0 where
    element : Bytes → Attributes → Nodes → Bytes → Node
    childless : Bytes → Attributes → Node
    content : Bytes → Node

  pub data Nodes : Type 0 where
    nil : Nodes
    cons : Node → Nodes → Nodes

mutual
  pub node_events : Node → List Event
  node_events (element name attrs body close) =
      start name attrs ∷ (nodes_events body ++ end close ∷ [])
  node_events (childless name attrs) = empty name attrs ∷ []
  node_events (content bytes) = other bytes ∷ []

  pub nodes_events : Nodes → List Event
  nodes_events nil = []
  nodes_events (cons n ns) = node_events n ++ nodes_events ns

abbrev pub cons_kept : Option Node → Nodes → Nodes
cons_kept none rest = rest
cons_kept (some n) rest = cons n rest

-- An attribute's name is "size", with a prefix or without one.
abbrev pub IsSize : Bytes → Type 0
IsSize key = (key ≡ codes "size") ⊎ ((prefix : Bytes) × (key ≡ prefix ++ codes ":size"))

-- The attributes that stay: those that parse, in their order, and on an entry all but a size.
pub data KeptAttrs (is_entry : Bool) : Attributes → Attributes → Type 0 where
  nothing : KeptAttrs is_entry [] []
  unparsed :
      {attrs ks : Attributes} → KeptAttrs is_entry attrs ks → KeptAttrs is_entry (none ∷ attrs) ks
  size :
      {attrs ks : Attributes} {key value : Bytes}
      → is_entry ≡ true
      → IsSize key
      → KeptAttrs is_entry attrs ks
      → KeptAttrs is_entry (some (key, value) ∷ attrs) ks
  stays :
      {attrs ks : Attributes} {key value : Bytes}
      → (is_entry ≡ true → IsSize key → ⊥)
      → KeptAttrs is_entry attrs ks
      → KeptAttrs is_entry (some (key, value) ∷ attrs) (some (key, value) ∷ ks)

drop-append : (xs ys : Bytes) → drop (length xs) (xs ++ ys) ≡ ys
drop-append [] ys = refl
drop-append (x ∷ xs) ys = drop-append xs ys

has_suffix-prefix :
    (suffix s : Bytes) → has_suffix suffix s ≡ true → (prefix : Bytes) × (s ≡ prefix ++ suffix)
has_suffix-prefix suffix s h =
    let n = length s - length suffix in
    let rest = (str_eq_iff (drop n s) suffix).0 (ground arith) in
    (take n s, sym (take-drop n s) ∙ ap (λ b. take n s ++ b) rest)

prefix-has_suffix : (prefix suffix : Bytes) → has_suffix suffix (prefix ++ suffix) ≡ true
prefix-has_suffix prefix suffix =
    let l = length-append prefix suffix in
    let n : length (prefix ++ suffix) - length suffix ≡ length prefix = omega (arith, l) in
    let rest =
      (str_eq_iff (drop (length (prefix ++ suffix) - length suffix) (prefix ++ suffix)) suffix).1
        (ap (λ k. drop k (prefix ++ suffix)) n ∙ drop-append prefix suffix) in
    ground (arith, l)

is_manifest_size_attr-IsSize : (key : Bytes) → (is_manifest_size_attr key ≡ true) ↔ IsSize key
unfolding is_manifest_size_attr
is_manifest_size_attr-IsSize key = (
  λ h. elim (Bool-cases (str_eq key (codes "size"))) [
    | inl e ↦ inl ((str_eq_iff key (codes "size")).0 e)
    | inr e ↦ inr (
        has_suffix-prefix (codes ":size") key
          (by_suffix (has_suffix (codes ":size") key) (rw e at h)))
  ],
  λ s. elim s [
    | inl e ↦ by_name (has_suffix (codes ":size") key) ((str_eq_iff key (codes "size")).1 e)
    | inr (prefix, e) ↦
        by_prefix (str_eq key (codes "size"))
          (ap (has_suffix (codes ":size")) e ∙ prefix-has_suffix prefix (codes ":size"))
  ],
)
  where
    by_suffix : (b : Bool) → (b || false) ≡ true → b ≡ true
    by_suffix true h = refl
    by_suffix false h = h

    by_name : (b : Bool) {c : Bool} → c ≡ true → (b || c) ≡ true
    by_name b h = ground arith

    by_prefix : {b : Bool} (c : Bool) → b ≡ true → (b || c) ≡ true
    by_prefix c h = ground arith

kept_attrs-KeptAttrs :
    (is_entry : Bool) (attrs : Attributes) → KeptAttrs is_entry attrs (kept_attrs is_entry attrs)
unfolding kept_attrs
kept_attrs-KeptAttrs is_entry [] = nothing
kept_attrs-KeptAttrs is_entry (none ∷ attrs) = unparsed (kept_attrs-KeptAttrs is_entry attrs)
kept_attrs-KeptAttrs is_entry (some (key, value) ∷ attrs) =
    let rest = kept_attrs-KeptAttrs is_entry attrs in
    let exact = is_manifest_size_attr-IsSize key in
    elim (Bool-cases (is_entry && is_manifest_size_attr key)) [
      | inl e ↦ rw e (size (ground arith) (exact.0 (ground arith)) rest)
      | inr e ↦ rw e (stays (λ k s. let v = exact.1 s in absurd (ground (arith, k, v))) rest)
    ]

abbrev pub AttrsKept : (Bool → Attributes → Attributes) → Type 0
AttrsKept kept =
    (is_entry : Bool) (attrs : Attributes) → KeptAttrs is_entry attrs (kept is_entry attrs)

module _ (xml : Xml) (kept : Bool → Attributes → Attributes) where
  abbrev is_named : Bytes → Bytes → Bool
  is_named name local = str_eq (xml.local_name name) local

  -- The document without `encryption-data`, at any depth, with what `kept` makes of the attributes
  -- of each other element, of which it is told if that is a `file-entry`.
  mutual
    pub stripped_node : Node → Option Node
    stripped_node (element name attrs body close) =
        let inner = stripped body in
        if is_named name (codes "encryption-data")
        then none
        else some (
            element (xml.from_utf8_lossy name) (kept (is_named name (codes "file-entry")) attrs)
              inner close)
    stripped_node (childless name attrs) =
        if is_named name (codes "encryption-data")
        then none
        else some
            (childless (xml.from_utf8_lossy name) (kept (is_named name (codes "file-entry")) attrs))
    stripped_node (content bytes) = some (content bytes)

    pub stripped : Nodes → Nodes
    stripped nil = nil
    stripped (cons n ns) = cons_kept (stripped_node n) (stripped ns)

module _ (xml : Xml) where
  -- The state with so many open elements that are skipped, and what is written.
  abbrev state : ℕ → List Event → Rewrite
  state d w = record { skip_depth = d; written = w }

  -- The tags around what is written for the body.
  closed :
      (w body : List Event) (first last : Event)
      → ((w ++ first ∷ []) ++ body) ++ last ∷ [] ≡ w ++ (first ∷ (body ++ last ∷ []))
  closed w body first last =
      append_assoc (w ++ first ∷ []) body (last ∷ [])
      ∙ append_assoc w (first ∷ []) (body ++ last ∷ [])

  -- What follows the body of an element, regrouped.
  regroup :
      (body ks : List Event) (close : Event) → (body ++ close ∷ []) ++ ks ≡ body ++ (close ∷ ks)
  regroup body ks close = append_assoc body (close ∷ []) ks

  mutual
    unfolding node_events rewrite_events rewrite_event

    skips_node :
        (n : Node) (d : ℕ) (w ks : List Event)
        → rewrite_events xml (state (suc d) w) (node_events n ++ ks)
          ≡ rewrite_events xml (state (suc d) w) ks
    skips_node (element name attrs body close) d w ks =
        let deeper : suc d + 1 ≡ suc (suc d) = omega arith in
        ap (λ (k : ℕ). rewrite_events xml (state k w) ((nodes_events body ++ end close ∷ []) ++ ks))
          deeper
        ∙ ap (rewrite_events xml (state (suc (suc d)) w))
            (regroup (nodes_events body) ks (end close))
        ∙ skips body (suc d) w (end close ∷ ks)
    skips_node (childless name attrs) d w ks = refl
    skips_node (content bytes) d w ks = refl

    skips :
        (ns : Nodes) (d : ℕ) (w ks : List Event)
        → rewrite_events xml (state (suc d) w) (nodes_events ns ++ ks)
          ≡ rewrite_events xml (state (suc d) w) ks
    skips nil d w ks = refl
    skips (cons n ns) d w ks =
        ap (rewrite_events xml (state (suc d) w))
          (append_assoc (node_events n) (nodes_events ns) ks)
        ∙ skips_node n d w (nodes_events ns ++ ks)
        ∙ skips ns d w ks

  abbrev kept_events : Option Node → List Event
  kept_events none = []
  kept_events (some n) = node_events n

  kept_events-cons :
      (o : Option Node) (ns : Nodes)
      → nodes_events (cons_kept o ns) ≡ kept_events o ++ nodes_events ns
  unfolding node_events
  kept_events-cons none ns = refl
  kept_events-cons (some n) ns = refl

  mutual
    unfolding node_events stripped_node rewrite_events rewrite_event lossy_name without_size

    writes_node :
        (n : Node) (w ks : List Event)
        → rewrite_events xml (state 0 w) (node_events n ++ ks)
          ≡ rewrite_events xml (state 0 (w ++ kept_events (stripped_node xml kept_attrs n))) ks
    writes_node (element name attrs body close) w ks =
        elim (Bool-cases (is_encryption_data xml name)) [
          | inl e ↦ rw e (
              ap (rewrite_events xml (state 1 w)) (regroup (nodes_events body) ks (end close))
              ∙ skips body 0 w (end close ∷ ks)
              ∙ ap (λ (v : List Event). rewrite_events xml (state 0 v) ks) (sym (append-nil w)))
          | inr e ↦
              let opened : Event = start (lossy_name xml name) (without_size xml name attrs) in
              rw e (
                ap (rewrite_events xml (state 0 (w ++ opened ∷ [])))
                  (regroup (nodes_events body) ks (end close))
                ∙ writes body (w ++ opened ∷ []) (end close ∷ ks)
                ∙ ap (λ (v : List Event). rewrite_events xml (state 0 v) ks)
                    (closed w (nodes_events (stripped xml kept_attrs body)) opened (end close)))
        ]
    writes_node (childless name attrs) w ks = elim (Bool-cases (is_encryption_data xml name)) [
      | inl e ↦
          rw e (ap (λ (v : List Event). rewrite_events xml (state 0 v) ks) (sym (append-nil w)))
      | inr e ↦ rw e refl
    ]
    writes_node (content bytes) w ks = refl

    writes :
        (ns : Nodes) (w ks : List Event)
        → rewrite_events xml (state 0 w) (nodes_events ns ++ ks)
          ≡ rewrite_events xml (state 0 (w ++ nodes_events (stripped xml kept_attrs ns))) ks
    writes nil w ks =
        ap (λ (v : List Event). rewrite_events xml (state 0 v) ks) (sym (append-nil w))
    writes (cons n ns) w ks =
        ap (rewrite_events xml (state 0 w)) (append_assoc (node_events n) (nodes_events ns) ks)
        ∙ writes_node n w (nodes_events ns ++ ks)
        ∙ writes ns (w ++ kept_events (stripped_node xml kept_attrs n)) ks
        ∙ ap (λ (v : List Event). rewrite_events xml (state 0 v) ks)
            (append_assoc w (kept_events (stripped_node xml kept_attrs n))
                (nodes_events (stripped xml kept_attrs ns))
              ∙ ap (λ (v : List Event). w ++ v)
                  (sym (
                    kept_events-cons (stripped_node xml kept_attrs n)
                      (stripped xml kept_attrs ns))))

  ends : (w : List Event) → rewrite_events xml (state 0 w) [] ≡ ok (state 0 w)
  unfolding rewrite_events
  ends w = refl

  -- A well nested manifest is rewritten to the document without its `encryption-data` elements, at
  -- any depth and with all that they hold, with every other tag in its place, its name as lossy
  -- UTF-8, its attributes that parse, in their order, but on a `file-entry` those named "size", with a
  -- prefix or without one; the rewrite does not fail.
  pub strip_manifest-stripped :
      (document : Bytes) (nodes : Nodes)
      → xml.read document ≡ nodes_events nodes
      → (kept : Bool → Attributes → Attributes) × AttrsKept kept
        × (strip_manifest xml document ≡ ok (xml.write (nodes_events (stripped xml kept nodes))))
  unfolding strip_manifest
  strip_manifest-stripped document nodes e =
      let read : xml.read document ≡ nodes_events nodes ++ [] =
        e ∙ sym (append-nil (nodes_events nodes)) in
      (
        kept_attrs,
        kept_attrs-KeptAttrs,
        ap
              (λ (es : List Event).
                rewrite_events xml (state 0 []) es >>= (λ last. ok (xml.write last.written)))
              read
            ∙ ap (λ (r : Result DecryptError Rewrite). r >>= (λ last. ok (xml.write last.written)))
                (writes nodes [] [] ∙ ends (nodes_events (stripped xml kept_attrs nodes))),
      )
