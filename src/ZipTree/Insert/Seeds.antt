-- ===== src/ZipTree/Insert/Seeds.antt =====
-- src/zip_tree.rs: the folder that `from_zip_names` caches for a member is the member's own.
use odf_crypto.Prelude.{
  ℕ, true, none, some, List, [], ◌∷◌, ◌++◌, ◌≡◌, refl, sym, ap, ◌∙◌, arith, Str, is_empty, is_some,
  split, split-nonempty, rsplit_once, ends_with, trim_end_matches, ◌==◌, Bool-cases, Option-cases,
  inl, inr,
}
use odf_crypto.ZipTree.Insert.{
  leading_parts, member_parts, containing_folder, walk_containing_folder,
}

pub rsplit-none : (sep : ℕ) (s : Str) → rsplit_once sep s ≡ none → split sep s ≡ s ∷ []
unfolding rsplit_once split
rsplit-none sep [] h = refl
rsplit-none sep (c ∷ s) h = ground (arith, rsplit-none sep s)

-- The pieces of a text are those in front of the last separator, and what is behind it.
pub split-rsplit :
    (sep : ℕ) (s before last : Str)
    → rsplit_once sep s ≡ some (before, last)
    → split sep s ≡ split sep before ++ last ∷ []
unfolding rsplit_once split
split-rsplit sep [] before last h = cc
split-rsplit sep (c ∷ s) before last h = elim (Option-cases (rsplit_once sep s)) [
  | inl e ↦ ground (arith, rsplit-none sep s e)
  | inr ((a, b), e) ↦
      let (p, ps, pieces) = split-nonempty sep a in ground (arith, split-rsplit sep s a b e, pieces)
]

pub containing-leading :
    (parts : List Str) (last : Str) → containing_folder (parts ++ last ∷ []) ≡ leading_parts parts
unfolding containing_folder leading_parts
containing-leading [] last = refl
containing-leading ([] ∷ []) last = refl
containing-leading ([] ∷ q ∷ ps) last = refl
containing-leading ((c ∷ p) ∷ []) last = refl
containing-leading ((c ∷ p) ∷ q ∷ ps) last =
    ap (λ (r : List Str). (c ∷ p) ∷ r) (containing-leading (q ∷ ps) last)

leading-empty_last : (parts : List Str) → leading_parts (parts ++ [] ∷ []) ≡ leading_parts parts
unfolding leading_parts
leading-empty_last [] = refl
leading-empty_last ([] ∷ ps) = refl
leading-empty_last ((c ∷ p) ∷ ps) = ap (λ (r : List Str). (c ∷ p) ∷ r) (leading-empty_last ps)

leading-cong :
    (p q : Str) (ps qs : List Str)
    → p ≡ q
    → leading_parts ps ≡ leading_parts qs
    → leading_parts (p ∷ ps) ≡ leading_parts (q ∷ qs)
unfolding leading_parts
leading-cong [] [] ps qs same rest = refl
leading-cong [] (d ∷ q) ps qs same rest = cc
leading-cong (c ∷ p) [] ps qs same rest = cc
leading-cong (c ∷ p) (d ∷ q) ps qs same rest = cc

-- Slashes at the end make no further part: the first pieces agree, and so do the parts behind them.
trim-pieces :
    (sep : ℕ) (s p q : Str) (ps qs : List Str)
    → split sep (trim_end_matches sep s) ≡ p ∷ ps
    → split sep s ≡ q ∷ qs
    → (p ≡ q) × (leading_parts ps ≡ leading_parts qs)
unfolding split trim_end_matches leading_parts
trim-pieces sep [] p q ps qs a b = ground arith
trim-pieces sep (c ∷ s) p q ps qs a b =
    let (u, us, eu) = split-nonempty sep (trim_end_matches sep s) in
    let (v, vs, ev) = split-nonempty sep s in
    let (same, rest) = trim-pieces sep s u v us vs eu ev in
    let all = leading-cong u v us vs same rest in
    elim (Bool-cases (c == sep)) [
      | inr other ↦ ground (arith, same, rest, eu, ev)
      | inl slash ↦ elim (Bool-cases (is_empty (trim_end_matches sep s))) [
        | inl empty ↦ ground (arith, all, eu, ev)
        | inr full ↦ ground (arith, all, eu, ev)
      ]
    ]

pub ends-some : (sep : ℕ) (s : Str) → ends_with sep s ≡ true → is_some (rsplit_once sep s) ≡ true
unfolding ends_with rsplit_once
ends-some sep [] h = cc
ends-some sep (c ∷ []) h = ground arith
ends-some sep (c ∷ d ∷ s) h = ground (arith, ends-some sep (d ∷ s))

pub ends-last :
    (sep : ℕ) (s before last : Str)
    → ends_with sep s ≡ true
    → rsplit_once sep s ≡ some (before, last)
    → last ≡ []
unfolding ends_with rsplit_once
ends-last sep [] before last e h = cc
ends-last sep (c ∷ []) before last e h = ground arith
ends-last sep (c ∷ d ∷ s) before last e h = elim (Option-cases (rsplit_once sep (d ∷ s))) [
  | inl x ↦ cc (ends-some sep (d ∷ s) e, x)
  | inr ((a, b), x) ↦ ground (arith, ends-last sep (d ∷ s) a b e x)
]

leading-trim :
    (sep : ℕ) (s : Str)
    → leading_parts (split sep (trim_end_matches sep s)) ≡ leading_parts (split sep s)
leading-trim sep s =
    let (u, us, eu) = split-nonempty sep (trim_end_matches sep s) in
    let (v, vs, ev) = split-nonempty sep s in
    let (same, rest) = trim-pieces sep s u v us vs eu ev in
    rw (eu, ev) (leading-cong u v us vs same rest)

-- The folder that is cached for a member is the one that it is inserted into.
pub walk_containing_folder-member_parts :
    (name before last : Str)
    → rsplit_once b'/' name ≡ some (before, last)
    → walk_containing_folder name ≡ leading_parts (split b'/' (member_parts name).0)
unfolding walk_containing_folder member_parts
walk_containing_folder-member_parts name before last h =
    let pieces = split-rsplit b'/' name before last h in
    let walked : containing_folder (split b'/' name) ≡ leading_parts (split b'/' before) =
      ap containing_folder pieces ∙ containing-leading (split b'/' before) last in
    elim (Bool-cases (ends_with b'/' name)) [
      | inr e ↦ rw (e, h, member_parts) walked
      | inl e ↦
          let empty = ends-last b'/' name before last e h in
          let whole : leading_parts (split b'/' name) ≡ leading_parts (split b'/' before) =
            ap leading_parts (pieces ∙ ap (λ (x : Str). split b'/' before ++ x ∷ []) empty)
            ∙ leading-empty_last (split b'/' before) in
          rw (e, member_parts) (walked ∙ sym whole ∙ sym (leading-trim b'/' name))
    ]
