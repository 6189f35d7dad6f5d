-- ===== src/Stream/Opening/Released.antt =====
-- src/stream.rs: what `GcmDecryptReader` gives out.
use odf_crypto.Prelude.{
  ℕ, ◌+◌, ◌≤◌, true, not, Option, none, some, List, [], ◌∷◌, ◌++◌, ◌≡◌, refl, sym, ap, ◌∙◌, subst,
  arith, Bytes, Str, leb, ◌==◌, if◌then◌else◌, is_empty, Bool-cases, Option-cases, inl, inr, ◌⊎◌,
  length, length-append, take-drop, Result, ok, ok-injective, >>=-ok, guard-ok,
}
use mathlib.Core.List.{append_assoc, append-nil}
use odf_crypto.Limits.{aes_gcm_tag_len}
use odf_crypto.Stream.Source.{IoError, unexpected_eof, changed, Source, read_full, read_some}
use odf_crypto.Stream.Bits.{ct_eq}
use odf_crypto.Stream.Ghash.Whole.{joined}
use odf_crypto.Stream.Gcm.{AesCrates, GcmStream, decrypt, tag}
use odf_crypto.Stream.Gcm.Seal.{decrypts}
use odf_crypto.Stream.Gate.Spans.{length-take-below}
use odf_crypto.Stream.Opening.{GcmDecryptReader, check_tag, open_some, open_read}

-- What was read stood in front of what is left.
abbrev Splits : Source → ℕ → Bytes × Source → Type 0
Splits src n r = (src.bytes ≡ r.0 ++ r.1.bytes) × (length r.0 ≤ n)

read_full-Splits :
    (n : ℕ) (src : Source) (r : Bytes × Source) → read_full n src ≡ ok r → Splits src n r
unfolding read_full
read_full-Splits n src r h = elim (Bool-cases (leb n (length src.bytes))) [
  | inl e ↦
      subst (Splits src n) (ok-injective (rw (e, read_full) at h))
        (sym (take-drop n src.bytes), omega (arith, length-take-below n src.bytes))
  | inr e ↦ elim (Option-cases src.failure) [
    | inl f ↦
        subst (Splits src n) (ok-injective (rw (e, f, read_full) at h))
          (sym (append-nil src.bytes), ground arith)
    | inr (message, f) ↦ absurd (cc (rw (e, f, read_full) at h))
  ]
]

read_some-from :
    (n : ℕ) (bytes : Bytes) (failure : Option Str) (r : Bytes × Source)
    → read_some n (record { bytes = bytes; failure = failure }) ≡ ok r
    → Splits (record { bytes = bytes; failure = failure }) n r
unfolding read_some
read_some-from n [] none r h =
    subst (Splits (record { bytes = []; failure = none }) n) (ok-injective h) (refl, omega arith)
read_some-from n [] (some message) r h = absurd (cc)
read_some-from n (b ∷ bytes) failure r h =
    subst (Splits (record { bytes = b ∷ bytes; failure = failure }) n) (ok-injective h)
      (sym (take-drop n (b ∷ bytes)), omega (arith, length-take-below n (b ∷ bytes)))

read_some-Splits :
    (n : ℕ) (src : Source) (r : Bytes × Source) → read_some n src ≡ ok r → Splits src n r
read_some-Splits n src r h = read_some-from n src.bytes src.failure r h

module _ (crates : AesCrates) where
  decrypts-append :
      (s : GcmStream crates) (xs : List Bytes) (y : Bytes)
      → ((decrypts crates s (xs ++ y ∷ [])).1
          ≡ (decrypts crates s xs).1 ++ (decrypt crates (decrypts crates s xs).0 y).1)
        × ((decrypts crates s (xs ++ y ∷ [])).0 ≡ (decrypt crates (decrypts crates s xs).0 y).0)
  decrypts-append s [] y = (append-nil _, refl)
  decrypts-append s (x ∷ xs) y =
      let first = decrypt crates s x in
      let rest = decrypts-append first.0 xs y in
      (ap (λ b. first.1 ++ b) rest.0 ∙ sym (append_assoc first.1 _ _), rest.1)

  joined-append : (xs : List Bytes) (y : Bytes) → joined (xs ++ y ∷ []) ≡ joined xs ++ y
  joined-append [] y = append-nil y
  joined-append (x ∷ xs) y =
      ap (λ b. x ++ b) (joined-append xs y) ∙ sym (append_assoc x (joined xs) y)

  module _ (s : GcmStream crates) (ct_len : ℕ) (bytes : Bytes) where
    -- The reader is still inside the ciphertext, of which it has given out the pieces.
    abbrev IsInside : List Bytes → Bytes → GcmDecryptReader crates → Type 0
    IsInside pieces tail r =
        (r.gcm ≡ some (decrypts crates s pieces).0)
        × (tail ≡ r.src.bytes)
        × (length (joined pieces) + r.left ≡ ct_len)

    -- The reader has given out the whole ciphertext, and a tag that matches it follows.
    abbrev pub IsVerified : List Bytes → Bytes → GcmDecryptReader crates → Type 0
    IsVerified pieces tail r =
        (r.gcm ≡ none)
        × (length (joined pieces) ≡ ct_len)
        × (stored : Bytes) × (tail ≡ stored ++ r.src.bytes)
        × (ct_eq (tag crates (decrypts crates s pieces).0) stored ≡ true)

    abbrev pub Released : Bytes → GcmDecryptReader crates → Type 0
    Released out r =
        (pieces : List Bytes) × (tail : Bytes) × (bytes ≡ joined pieces ++ tail)
        × (out ≡ (decrypts crates s pieces).1)
        × (IsInside pieces tail r ⊎ IsVerified pieces tail r)

    check_tag-Released :
        (out : Bytes) (pieces : List Bytes) (tail : Bytes) (r : GcmDecryptReader crates)
        (q : Bytes × GcmDecryptReader crates)
        → bytes ≡ joined pieces ++ tail
        → out ≡ (decrypts crates s pieces).1
        → IsInside pieces tail r
        → r.left ≡ 0
        → check_tag crates r (decrypts crates s pieces).0 ≡ ok q
        → Released (out ++ q.0) q.1
    unfolding check_tag
    check_tag-Released out pieces tail r q cut plain (gcm, same, count) done h =
        let (w, rest, first) = >>=-ok (read_full aes_gcm_tag_len r.src) _ h in
        let is_long = length w.0 == aes_gcm_tag_len in
        let is_match = ct_eq (tag crates (decrypts crates s pieces).0) w.0 in
        let verified : GcmDecryptReader crates = record { src = w.1; gcm = none; left = r.left } in
        let (long, rest') = guard-ok (not is_long) unexpected_eof _ rest in
        let (matches, last) = guard-ok (not is_match) changed (ok ([], verified)) rest' in
        let splits = read_full-Splits aes_gcm_tag_len r.src w first in
        subst (λ (p : Bytes × GcmDecryptReader crates). Released (out ++ p.0) p.1)
          (ok-injective last)
          (
            pieces,
            tail,
            cut,
            append-nil out ∙ plain,
            inr (refl, omega (arith, count, done), w.0, same ∙ splits.0, ground arith),
          )

    open_some-Released :
        (n : ℕ) (out : Bytes) (pieces : List Bytes) (tail : Bytes) (r : GcmDecryptReader crates)
        (q : Bytes × GcmDecryptReader crates)
        → bytes ≡ joined pieces ++ tail
        → out ≡ (decrypts crates s pieces).1
        → IsInside pieces tail r
        → open_some crates n r (decrypts crates s pieces).0 ≡ ok q
        → Released (out ++ q.0) q.1
    unfolding open_some
    open_some-Released n out pieces tail r q cut plain (gcm, same, count) h =
        let want = if leb r.left n then r.left else n in
        let (w, rest, first) = >>=-ok (read_some want r.src) _ h in
        let (busy, last) = guard-ok (is_empty w.0) unexpected_eof _ rest in
        let splits = read_some-Splits want r.src w first in
        let more = decrypts-append s pieces w.0 in
        let bound : length w.0 ≤ r.left = let l = splits.1 in ground arith in
        subst (λ (p : Bytes × GcmDecryptReader crates). Released (out ++ p.0) p.1)
          (ok-injective last)
          (
            pieces ++ w.0 ∷ [],
            w.1.bytes,
            cut
                ∙ ap (λ b. joined pieces ++ b) (same ∙ splits.0)
                ∙ sym (append_assoc (joined pieces) w.0 _)
                ∙ ap (λ b. b ++ w.1.bytes) (sym (joined-append pieces w.0)),
            ap (λ b. b ++ (decrypt crates (decrypts crates s pieces).0 w.0).1) plain ∙ sym more.0,
            inl (
              ap some (sym more.1),
              refl,
              let l = ap length (joined-append pieces w.0) ∙ length-append (joined pieces) w.0 in
                  omega (arith, l, count, bound),
            ),
          )

    nothing :
        (out : Bytes) (r : GcmDecryptReader crates) (q : Bytes × GcmDecryptReader crates)
        → Released out r
        → ◌≡◌ {A = Result IoError (Bytes × GcmDecryptReader crates)} (ok ([], r)) (ok q)
        → Released (out ++ q.0) q.1
    nothing out r q released h =
        subst (λ (p : Bytes × GcmDecryptReader crates). Released (out ++ p.0) p.1) (ok-injective h)
          (subst (λ (b : Bytes). Released b r) (sym (append-nil out)) released)

    pub open_read-Released :
        (n : ℕ) (out : Bytes) (r : GcmDecryptReader crates) (q : Bytes × GcmDecryptReader crates)
        → Released out r
        → open_read crates n r ≡ ok q
        → Released (out ++ q.0) q.1
    unfolding open_read
    open_read-Released n out r q released h = elim (Bool-cases (n == 0)) [
      | inl e ↦ nothing out r q released (rw (e, open_read) at h)
      | inr e ↦
          let (pieces, tail, cut, plain, state) = released in
          elim state [
            | inl inside ↦ elim (Bool-cases (r.left == 0)) [
              | inl done ↦
                  check_tag-Released out pieces tail r q cut plain inside (ground arith)
                    (rw (e, inside.0, done, open_read) at h)
              | inr more ↦
                  open_some-Released n out pieces tail r q cut plain inside
                    (rw (e, inside.0, more, open_read) at h)
            ]
            | inr verified ↦ nothing out r q released (rw (e, verified.0, open_read) at h)
          ]
    ]
