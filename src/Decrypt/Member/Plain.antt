-- ===== src/Decrypt/Member/Plain.antt =====
-- src/decrypt_stream.rs: the release pass of a member as a reader.
use odf_crypto.Prelude.{
  ℕ, zero, suc, ◌-◌, ◌≤◌, true, not, Str, Option, none, some, [], ◌∷◌, ◌++◌, ◌≡◌, refl, sym, ap,
  ◌∙◌, subst, arith, Bytes, leb, ◌==◌, if◌then◌else◌, is_empty, length, take, drop, Bool-cases,
  Option-cases, inl, inr, Result, ok, err, map_err, >>=-ok, guard-ok, ok-injective,
}
use odf_crypto.Limits.{aes_gcm_tag_len}
use odf_crypto.Stream.Source.{Source, unexpected_eof, changed, read_full, read_some}
use odf_crypto.Stream.Bits.{ct_eq}
use odf_crypto.Stream.Gcm.{AesCrates, GcmStream, decrypt, tag}
use odf_crypto.Stream.Gcm.Seal.{RunsOn}
use odf_crypto.Stream.Opening.{GcmDecryptReader, check_tag, open_some, open_read}
use odf_crypto.Stream.Reader.{Gives, stream_error}
use odf_crypto.Decrypt.Keys.{Crypto}
use odf_crypto.Decrypt.Member.{plain_reader}

pub map_err-ok :
    {E F A : Type 0} (f : E → F) (r : Result E A) {a : A} → map_err f r ≡ ok a → r ≡ ok a
map_err-ok f (ok b) h = ap ok (ok-injective h)
map_err-ok f (err e) h = cc

take-nil : (n : ℕ) → take {A = ℕ} n [] ≡ []
take-nil zero = refl
take-nil (suc n) = refl

drop-nil : (n : ℕ) → drop {A = ℕ} n [] ≡ []
drop-nil zero = refl
drop-nil (suc n) = refl

take-split :
    (m left : ℕ) (xs : Bytes)
    → m ≤ left
    → take left xs ≡ take m xs ++ take (left - length (take m xs)) (drop m xs)
take-split zero left xs h = ap (λ n. take n xs) (omega arith)
take-split (suc m) zero xs h = absurd (omega (arith, h))
take-split (suc m) (suc left) [] h = sym (take-nil (suc left - 0))
take-split (suc m) (suc left) (x ∷ xs) h =
    ap (λ (b : Bytes). x ∷ b)
      (take-split m left xs (omega (arith, h))
        ∙ ap (λ n. take m xs ++ take n (drop m xs)) (omega arith))

-- One read takes what is there.
pub read_some-taken :
    (m : ℕ) (bytes : Bytes) (failure : Option Str) (next : Source) (got : Bytes)
    → read_some m (record { bytes = bytes; failure = failure }) ≡ ok (got, next)
    → (got ≡ take m bytes) × (next.bytes ≡ drop m bytes)
unfolding read_some
read_some-taken m [] none next got h = (
  ap (λ (q : Bytes × Source). q.0) (sym (ok-injective h)) ∙ sym (take-nil m),
  ap (λ (q : Bytes × Source). q.1.bytes) (sym (ok-injective h)) ∙ sym (drop-nil m),
)
read_some-taken m [] (some message) next got h = absurd (cc)
read_some-taken m (x ∷ xs) failure next got h = (
  ap (λ (q : Bytes × Source). q.0) (sym (ok-injective h)),
  ap (λ (q : Bytes × Source). q.1.bytes) (sym (ok-injective h)),
)

module _ (crates : AesCrates) (crypto : Crypto) (laws : RunsOn crates) where
  abbrev R : Type 0
  R = GcmDecryptReader crates

  -- The plaintext that is still to come.
  abbrev pub plain_rest : R → Bytes
  plain_rest r = elim r.gcm [
    | none ↦ []
    | some gcm ↦ (crates.apply_keystream gcm.ctr (take r.left r.src.bytes)).1
  ]

  -- A read takes the first of the plaintext to come, and nothing only behind its last byte.
  abbrev Taken : ℕ → R → Bytes × R → Type 0
  Taken n r q = (plain_rest r ≡ q.0 ++ plain_rest q.1) × (1 ≤ n → q.0 ≡ [] → plain_rest q.1 ≡ [])

  check_tag-Taken :
      (n : ℕ) (r : R) (gcm : GcmStream crates) (q : Bytes × R)
      → r.gcm ≡ some gcm
      → (r.left == 0) ≡ true
      → check_tag crates r gcm ≡ ok q
      → Taken n r q
  unfolding check_tag
  check_tag-Taken n r gcm q e over h =
      let (want, rest, first) = >>=-ok (read_full aes_gcm_tag_len r.src) _ h in
      let (long, rest') = guard-ok (not (length want.0 == aes_gcm_tag_len)) unexpected_eof _ rest in
      let (matches, last) = guard-ok (not (ct_eq (tag crates gcm) want.0)) changed _ rest' in
      let none_left : r.left ≡ 0 = ground arith in
      subst (Taken n r) (ok-injective last) (
        rw (e, none_left) (ap (λ (p : crates.Ctr × Bytes). p.1) (laws.empty gcm.ctr)),
        λ room empty. refl,
      )

  open_some-Taken :
      (n : ℕ) (r : R) (gcm : GcmStream crates) (q : Bytes × R)
      → r.gcm ≡ some gcm
      → open_some crates n r gcm ≡ ok q
      → Taken n r q
  unfolding open_some decrypt
  open_some-Taken n r gcm q e h =
      let m = if leb r.left n then r.left else n in
      let (got, rest, first) = >>=-ok (read_some m r.src) _ h in
      let (some_got, last) = guard-ok (is_empty got.0) unexpected_eof _ rest in
      let (taken, left) = read_some-taken m r.src.bytes r.src.failure got.1 got.0 first in
      let few : m ≤ r.left = ground arith in
      subst (Taken n r) (ok-injective last) (
        rw e (
            ap (λ b. (crates.apply_keystream gcm.ctr b).1)
              (take-split m r.left r.src.bytes few
                ∙ ap (λ (b : Bytes). b ++ take (r.left - length b) (drop m r.src.bytes)) (sym taken)
                ∙ ap (λ (b : Bytes). got.0 ++ take (r.left - length got.0) b) (sym left))
            ∙ laws.append gcm.ctr got.0 _),
        λ room empty. absurd (
            cc (
              some_got,
              sym (laws.restores gcm.ctr got.0)
                  ∙ ap (λ b. (crates.apply_keystream gcm.ctr b).1) empty
                  ∙ ap (λ (p : crates.Ctr × Bytes). p.1) (laws.empty gcm.ctr),
            )),
      )

  open_read-Taken : (n : ℕ) (r : R) (q : Bytes × R) → open_read crates n r ≡ ok q → Taken n r q
  unfolding open_read
  open_read-Taken n r q h = elim (Bool-cases (n == 0)) [
    | inl no_room ↦
        subst (Taken n r) (ok-injective (rw (no_room, open_read) at h))
          (refl, λ room empty. absurd (ground (arith, room)))
    | inr room ↦ elim (Option-cases r.gcm) [
      | inl e ↦
          subst (Taken n r) (ok-injective (rw (room, e, open_read) at h))
            (refl, λ some_room empty. rw e refl)
      | inr (gcm, e) ↦ elim (Bool-cases (r.left == 0)) [
        | inl over ↦ check_tag-Taken n r gcm q e over (rw (room, e, over, open_read) at h)
        | inr more ↦ open_some-Taken n r gcm q e (rw (room, e, more, open_read) at h)
      ]
    ]
  ]

  pub plain_reader-Gives : Gives (plain_reader crates crypto) plain_rest
  plain_reader-Gives = record {
    in_order = λ n s next got h. (open_read-Taken n s (got, next) (map_err-ok stream_error _ h)).0;
    at_end = λ n s next h.
        (open_read-Taken (suc n) s ([], next) (map_err-ok stream_error _ h)).1 (omega arith) refl;
  }
