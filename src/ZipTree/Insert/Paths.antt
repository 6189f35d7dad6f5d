-- ===== src/ZipTree/Insert/Paths.antt =====
-- src/zip_tree.rs: the parts of a member's name against the folders that it is made of.
use odf_crypto.Prelude.{
  ℕ, false, none, some, List, [], ◌∷◌, ◌++◌, ◌≡◌, refl, sym, ap, ◌∙◌, All, Str, is_empty, split,
  rsplit_once, ends_with, ◌==◌, Bool-cases, Option-cases, inl, inr, ◌⊎◌,
}
use odf_crypto.ZipTree.Insert.{
  leading_parts, member_parts, containing_folder, walk_containing_folder,
}
use odf_crypto.ZipTree.Insert.Seeds.{
  rsplit-none, split-rsplit, containing-leading, ends-some, ends-last,
  walk_containing_folder-member_parts,
}

abbrev pub IsNoSlash : ℕ → Type 0
IsNoSlash c = (c == b'/') ≡ false

abbrev pub HasNoSlash : Str → Type 0
HasNoSlash s = All IsNoSlash s

-- The name of a folder.
abbrev pub IsPart : Str → Type 0
IsPart p = (is_empty p ≡ false) × HasNoSlash p

-- The member `last` of the folder; the folder itself, if that is empty.
abbrev pub member_path : List Str → Str → Str
member_path [] last = last
member_path (dir ∷ dirs) last = dir ++ (b'/' ∷ member_path dirs last)

split-no_slash : (s : Str) → HasNoSlash s → split b'/' s ≡ s ∷ []
unfolding split
split-no_slash [] h = refl
split-no_slash (c ∷ s) (h, rest) = rw (split, h, split-no_slash s rest) refl

split-part : (p s : Str) → HasNoSlash p → split b'/' (p ++ (b'/' ∷ s)) ≡ p ∷ split b'/' s
unfolding split
split-part [] s h = refl
split-part (c ∷ p) s (h, rest) = rw (split, h, split-part p s rest) refl

split-member_path :
    (dirs : List Str) (last : Str)
    → All IsPart dirs
    → HasNoSlash last
    → split b'/' (member_path dirs last) ≡ dirs ++ last ∷ []
split-member_path [] last h k = split-no_slash last k
split-member_path (dir ∷ dirs) last (h, rest) k =
    split-part dir (member_path dirs last) (h.1)
    ∙ ap (λ (ps : List Str). dir ∷ ps) (split-member_path dirs last rest k)

leading-parts : (dirs : List Str) → All IsPart dirs → leading_parts dirs ≡ dirs
unfolding leading_parts
leading-parts [] h = refl
leading-parts ([] ∷ dirs) (h, rest) = absurd (cc (h.0))
leading-parts ((c ∷ p) ∷ dirs) (h, rest) =
    ap (λ (ps : List Str). (c ∷ p) ∷ ps) (leading-parts dirs rest)

abbrev last_of : List Str → Str
last_of [] = []
last_of (p ∷ []) = p
last_of (p ∷ q ∷ ps) = last_of (q ∷ ps)

last_of-append : (ps : List Str) (p : Str) → last_of (ps ++ p ∷ []) ≡ p
last_of-append [] p = refl
last_of-append (q ∷ []) p = refl
last_of-append (q ∷ r ∷ ps) p = last_of-append (r ∷ ps) p

abbrev front_of : List Str → List Str
front_of [] = []
front_of (p ∷ []) = []
front_of (p ∷ q ∷ ps) = p ∷ front_of (q ∷ ps)

front_of-append : (ps : List Str) (p : Str) → front_of (ps ++ p ∷ []) ≡ ps
front_of-append [] p = refl
front_of-append (q ∷ []) p = refl
front_of-append (q ∷ r ∷ ps) p = ap (λ (xs : List Str). q ∷ xs) (front_of-append (r ∷ ps) p)

-- A member's name is taken apart into the folders and the last part that it is made of; without a
-- last part it is a folder's.
pub member_parts-member_path :
    (dirs : List Str) (last : Str)
    → All IsPart dirs
    → HasNoSlash last
    → (leading_parts (split b'/' (member_parts (member_path dirs last)).0) ≡ dirs)
      × (((member_parts (member_path dirs last)).1 ≡ some last)
          ⊎ (((member_parts (member_path dirs last)).1 ≡ none) × (last ≡ [])))
unfolding member_parts walk_containing_folder leading_parts split
member_parts-member_path dirs last parts slashless =
    let name = member_path dirs last in
    let pieces = split-member_path dirs last parts slashless in
    elim (Option-cases (rsplit_once b'/' name)) [
      | inl e ↦
          let same = sym pieces ∙ rsplit-none b'/' name e in
          let no_dirs : dirs ≡ [] = sym (front_of-append dirs last) ∙ ap front_of same in
          let whole : last ≡ name = sym (last_of-append dirs last) ∙ ap last_of same in
          elim (Bool-cases (ends_with b'/' name)) [
            | inl slash ↦ absurd (cc (ends-some b'/' name slash, e))
            | inr other ↦ rw (other, e, member_parts) (sym no_dirs, inl (ap some (sym whole)))
          ]
      | inr ((before, l), e) ↦
          let first =
            sym (walk_containing_folder-member_parts name before l e)
            ∙ ap containing_folder pieces
            ∙ containing-leading dirs last
            ∙ leading-parts dirs parts in
          let same : l ≡ last =
            sym (last_of-append (split b'/' before) l)
            ∙ ap last_of (sym (split-rsplit b'/' name before l e) ∙ pieces)
            ∙ last_of-append dirs last in
          elim (Bool-cases (ends_with b'/' name)) [
            | inl slash ↦ (
              first,
              inr (rw (slash, member_parts) refl, sym same ∙ ends-last b'/' name before l slash e),
            )
            | inr other ↦ (first, inl (rw (other, e, member_parts) (ap some same)))
          ]
    ]
