-- ===== src/Classify/Package/Descriptors.antt =====
-- src/classify.rs: `check_stored_data_descriptors` against a statement about all members.
use odf_crypto.Prelude.{
  ℕ, Bool, true, false, not, ◌&&◌, ◌==◌, any, List, [], ◌∷◌, ◌++◌, ◌≡◌, ◌≢◌, ◌↔◌, ◌⊎◌, refl, sym,
  ap, ◌∙◌, subst, arith, All, Str, str_eq, str_eq_iff, ok, err, Bool-cases, inl, inr,
}
use odf_crypto.Types.{Classification, EntryEncryption}
use odf_crypto.Classify.Names.{collapse_from, collapse_slashes}
use odf_crypto.Classify.Members.{ZipMember}
use odf_crypto.Classify.Package.{
  is_encrypted_path, descriptor_error, is_bad_descriptor, check_stored_data_descriptors,
}

-- One of two slashes in a row goes, any number of times.
pub data Squeezes : Str → Str → Type 0 where
  as_it_is : {s : Str} → Squeezes s s
  squeeze :
      {t : Str} (before after : Str)
      → Squeezes (before ++ (b'/' ∷ after)) t
      → Squeezes (before ++ (b'/' ∷ b'/' ∷ after)) t

abbrev pub is_slash : ℕ → Bool
is_slash c = c == b'/'

abbrev pub no_double : Str → Bool
no_double [] = true
no_double (c ∷ []) = true
no_double (c ∷ d ∷ s) = not (is_slash c && is_slash d) && no_double (d ∷ s)

-- What is left of a name when no two slashes are in a row.
abbrev pub IsCollapsed : Str → Str → Type 0
IsCollapsed name short = Squeezes name short × (no_double short ≡ true)

Squeezes-onto : (c : ℕ) {s t : Str} → Squeezes s t → Squeezes (c ∷ s) (c ∷ t)
Squeezes-onto c as_it_is = as_it_is
Squeezes-onto c (squeeze before after h) = squeeze (c ∷ before) after (Squeezes-onto c h)

abbrev onto : Bool → Str → Str
onto true s = b'/' ∷ s
onto false s = s

collapse_from-Squeezes : (p : Bool) (s : Str) → Squeezes (onto p s) (onto p (collapse_from p s))
unfolding collapse_from
collapse_from-Squeezes p [] = as_it_is
collapse_from-Squeezes p (c ∷ s) = elim (Bool-cases (c == b'/')) [
  | inl e ↦
      let slash : c ≡ b'/' = ground arith in
      subst (λ (x : ℕ). Squeezes (onto p (x ∷ s)) (onto p (collapse_from p (x ∷ s)))) (sym slash)
        (at_slash p (collapse_from-Squeezes true s))
  | inr e ↦ rw (e, collapse_from) (on p (Squeezes-onto c (collapse_from-Squeezes false s)))
]
  where
    on : (p : Bool) {x y : Str} → Squeezes x y → Squeezes (onto p x) (onto p y)
    on true h = Squeezes-onto b'/' h
    on false h = h

    at_slash :
        (p : Bool)
        → Squeezes (b'/' ∷ s) (b'/' ∷ collapse_from true s)
        → Squeezes (onto p (b'/' ∷ s)) (onto p (collapse_from p (b'/' ∷ s)))
    at_slash true h = squeeze [] s h
    at_slash false h = h

no_double-onto : (c : ℕ) (s : Str) → is_slash c ≡ false → no_double (c ∷ s) ≡ no_double s
no_double-onto c [] h = refl
no_double-onto c (d ∷ s) h = ground (arith, h)

collapse_from-no_double : (p : Bool) (s : Str) → no_double (onto p (collapse_from p s)) ≡ true
unfolding collapse_from
collapse_from-no_double true [] = refl
collapse_from-no_double false [] = refl
collapse_from-no_double p (c ∷ s) = elim (Bool-cases (c == b'/')) [
  | inl e ↦
      let slash : c ≡ b'/' = ground arith in
      subst (λ (x : ℕ). no_double (onto p (collapse_from p (x ∷ s))) ≡ true) (sym slash)
        (at_slash p (collapse_from-no_double true s))
  | inr e ↦
      rw (e, collapse_from)
        (on p (collapse_from false s) e
          (no_double-onto c (collapse_from false s) e ∙ collapse_from-no_double false s))
]
  where
    on :
        (p : Bool) (t : Str)
        → is_slash c ≡ false
        → no_double (c ∷ t) ≡ true
        → no_double (onto p (c ∷ t)) ≡ true
    on true t e h = ground (arith, e, h)
    on false t e h = h

    at_slash :
        (p : Bool)
        → no_double (b'/' ∷ collapse_from true s) ≡ true
        → no_double (onto p (collapse_from p (b'/' ∷ s))) ≡ true
    at_slash true h = h
    at_slash false h = h

-- Of two slashes the second goes in any case.
collapse_from-squeeze :
    (p : Bool) (before after : Str)
    → collapse_from p (before ++ (b'/' ∷ b'/' ∷ after)) ≡ collapse_from p (before ++ (b'/' ∷ after))
unfolding collapse_from
collapse_from-squeeze true [] after = refl
collapse_from-squeeze false [] after = refl
collapse_from-squeeze p (c ∷ before) after =
    ground (arith, collapse_from-squeeze (c == b'/') before after)

Squeezes-collapse : {s t : Str} → Squeezes s t → collapse_slashes s ≡ collapse_slashes t
unfolding collapse_slashes
Squeezes-collapse as_it_is = refl
Squeezes-collapse (squeeze before after h) =
    collapse_from-squeeze false before after ∙ Squeezes-collapse h

no_double-collapse : (p : Bool) (s : Str) → no_double (onto p s) ≡ true → collapse_from p s ≡ s
unfolding collapse_from
no_double-collapse p [] h = refl
no_double-collapse p (c ∷ s) h = elim (Bool-cases (c == b'/')) [
  | inl e ↦
      let slash : c ≡ b'/' = ground arith in
      subst (λ (x : ℕ). no_double (onto p (x ∷ s)) ≡ true → collapse_from p (x ∷ s) ≡ x ∷ s)
        (sym slash) (at_slash p (λ k. no_double-collapse true s k)) h
  | inr e ↦
      rw (e, collapse_from)
        (ap (λ (t : Str). c ∷ t)
          (no_double-collapse false s (sym (no_double-onto c s e) ∙ behind p h)))
]
  where
    behind : (p : Bool) → no_double (onto p (c ∷ s)) ≡ true → no_double (c ∷ s) ≡ true
    behind true k = ground (arith, k)
    behind false k = k

    at_slash :
        (p : Bool)
        → (no_double (onto true s) ≡ true → collapse_from true s ≡ s)
        → no_double (onto p (b'/' ∷ s)) ≡ true
        → collapse_from p (b'/' ∷ s) ≡ b'/' ∷ s
    at_slash true rest k = absurd (cc (k))
    at_slash false rest k = ap (λ (t : Str). b'/' ∷ t) (rest k)

collapse_slashes-exact :
    (name short : Str) → (collapse_slashes name ≡ short) ↔ IsCollapsed name short
unfolding collapse_slashes
collapse_slashes-exact name short = (
  λ e.
      subst (IsCollapsed name) e
        (collapse_from-Squeezes false name, collapse_from-no_double false name),
  λ c. Squeezes-collapse c.0 ∙ no_double-collapse false short c.1,
)

-- Some entry has the path.
abbrev pub HasEntry : Str → List EntryEncryption → Type 0
HasEntry name [] = ⊥
HasEntry name (e ∷ entries) = (e.path ≡ name) ⊎ HasEntry name entries

is_encrypted_path-HasEntry :
    (entries : List EntryEncryption) (name : Str)
    → (is_encrypted_path entries name ≡ true) ↔ HasEntry name entries
unfolding any
is_encrypted_path-HasEntry [] name = (λ h. cc, λ h. absurd h)
is_encrypted_path-HasEntry (e ∷ entries) name =
    let first = str_eq_iff e.path name in
    let rest = is_encrypted_path-HasEntry entries name in
    (
      λ h. elim (Bool-cases (str_eq e.path name)) [
        | inl k ↦ inl (first.0 k)
        | inr k ↦ inr (rest.0 (ground arith))
      ],
      λ h. elim h [
        | inl k ↦ let v = first.1 k in ground arith
        | inr k ↦ let v = rest.1 k in ground arith
      ],
    )

-- The member is not both stored and written with a data descriptor, unless an entry has its name, or
-- its name without doubled slashes.
abbrev pub DescriptorAllowed : Classification → ZipMember → Type 0
DescriptorAllowed class m =
    (m.stored ≡ false)
    ⊎ (m.data_descriptor ≡ false)
    ⊎ HasEntry m.name class.encrypted_entries
    ⊎ ((short : Str) × IsCollapsed m.name short × HasEntry short class.encrypted_entries)

is_bad_descriptor-allowed :
    (class : Classification) (m : ZipMember)
    → (is_bad_descriptor class.encrypted_entries m ≡ false) ↔ DescriptorAllowed class m
unfolding is_bad_descriptor
is_bad_descriptor-allowed class m =
    let entries = class.encrypted_entries in
    let named = is_encrypted_path-HasEntry entries in
    (
      λ h. elim (Bool-cases (m.stored)) [
        | inr s ↦ inl s
        | inl s ↦ elim (Bool-cases (m.data_descriptor)) [
          | inr d ↦ inr (inl d)
          | inl d ↦ elim (Bool-cases (is_encrypted_path entries m.name)) [
            | inl e ↦ inr (inr (inl ((named m.name).0 e)))
            | inr e ↦ inr (
                inr (
                  inr (
                    collapse_slashes m.name,
                    (collapse_slashes-exact m.name _).0 refl,
                    (named (collapse_slashes m.name)).0 (ground arith),
                  )))
          ]
        ]
      ],
      λ a. elim a [
        | inl s ↦ ground arith
        | inr (inl d) ↦ ground arith
        | inr (inr (inl e)) ↦ let k = (named m.name).1 e in ground arith
        | inr (inr (inr (short, c, e))) ↦
            let k =
              ap (is_encrypted_path entries) ((collapse_slashes-exact m.name short).1 c)
              ∙ (named short).1 e in
            ground arith
      ],
    )

-- The check passes exactly when no member is stored with a data descriptor, unless an encrypted
-- entry has its name or what is left of it when no two slashes are in a row; else it gives its one
-- error.
pub check_descriptors_exact :
    (members : List ZipMember) (class : Classification)
    → ((check_stored_data_descriptors members class ≡ ok tt)
        ↔ All (DescriptorAllowed class) members)
      × ((check_stored_data_descriptors members class ≢ ok tt)
          → check_stored_data_descriptors members class ≡ err descriptor_error)
unfolding check_stored_data_descriptors
check_descriptors_exact [] class = ((λ h. tt, λ h. refl), λ h. absurd (h refl))
check_descriptors_exact (m ∷ members) class =
    let rest = check_descriptors_exact members class in
    let allowed = is_bad_descriptor-allowed class m in
    elim (Bool-cases (is_bad_descriptor class.encrypted_entries m)) [
      | inl bad ↦
          rw (bad, check_stored_data_descriptors)
            ((λ h. cc, λ h. cc (bad, allowed.1 h.0)), λ h. refl)
      | inr fine ↦
          rw (fine, check_stored_data_descriptors)
            ((λ h. (allowed.0 fine, rest.0.0 h), λ h. rest.0.1 h.1), rest.1)
    ]
