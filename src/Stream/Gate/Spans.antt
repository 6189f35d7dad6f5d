-- ===== src/Stream/Gate/Spans.antt =====
-- src/stream.rs: spans of bytes, and reads of a source that does not fail.
use odf_crypto.Prelude.{
  ℕ, zero, suc, ◌+◌, ◌≤◌, none, [], ◌∷◌, ◌≡◌, refl, ap, ◌∙◌, arith, Bytes, leb, Bool-cases, inl,
  inr, length, take, drop, Result, ok,
}
use odf_crypto.Stream.Source.{IoError, Source, read_full, read_some}
use odf_crypto.Stream.Ghash.Absorbed.{drop-all}

pub take-within :
    (c p l : ℕ) (xs : Bytes) → p + c ≤ l → take c (drop p (take l xs)) ≡ take c (drop p xs)
take-within zero p l xs h = refl
take-within (suc c) p zero xs h = absurd (omega (arith, h))
take-within (suc c) zero (suc l) [] h = refl
take-within (suc c) zero (suc l) (x ∷ xs) h =
    ap (λ (r : Bytes). x ∷ r) (take-within c zero l xs (omega (arith, h)))
take-within (suc c) (suc p) (suc l) [] h = refl
take-within (suc c) (suc p) (suc l) (x ∷ xs) h = take-within (suc c) p l xs (omega (arith, h))

suc-plus : (p c : ℕ) → suc p + c ≡ suc (p + c)
suc-plus p c = omega arith

pub drop-drop : (p c : ℕ) (xs : Bytes) → drop (p + c) xs ≡ drop c (drop p xs)
drop-drop zero c xs = ap (λ (n : ℕ). drop n xs) (omega arith)
drop-drop (suc p) zero [] = ap (λ (n : ℕ). drop {A = ℕ} n []) (suc-plus p zero)
drop-drop (suc p) (suc c) [] = ap (λ (n : ℕ). drop {A = ℕ} n []) (suc-plus p (suc c))
drop-drop (suc p) c (x ∷ xs) = ap (λ (n : ℕ). drop n (x ∷ xs)) (suc-plus p c) ∙ drop-drop p c xs

pub length-take-below : (n : ℕ) (xs : Bytes) → length (take n xs) ≤ n
length-take-below zero xs = omega arith
length-take-below (suc n) [] = omega arith
length-take-below (suc n) (x ∷ xs) = omega (arith, length-take-below n xs)

pub read_some-splits :
    (n : ℕ) (bytes : Bytes)
    → read_some n (record { bytes = bytes; failure = none })
      ≡ ok (take n bytes, record { bytes = drop n bytes; failure = none })
unfolding read_some
read_some-splits n [] = nothing n
  where
    nothing :
        (n : ℕ)
        → ◌≡◌ {A = Result IoError (Bytes × Source)}
            (ok ([], record { bytes = []; failure = none }))
            (ok (take n [], record { bytes = drop n []; failure = none }))
    nothing zero = refl
    nothing (suc n) = refl
read_some-splits n (b ∷ bytes) = refl

take-over : (n : ℕ) (xs : Bytes) → length xs ≤ n → take n xs ≡ xs
take-over zero [] h = refl
take-over zero (x ∷ xs) h = absurd (omega (arith, h))
take-over (suc n) [] h = refl
take-over (suc n) (x ∷ xs) h = ap (λ (r : Bytes). x ∷ r) (take-over n xs (omega (arith, h)))

pub read_full-splits :
    (n : ℕ) (bytes : Bytes)
    → read_full n (record { bytes = bytes; failure = none })
      ≡ ok (take n bytes, record { bytes = drop n bytes; failure = none })
unfolding read_full
read_full-splits n bytes = elim (Bool-cases (leb n (length bytes))) [
  | inl e ↦ rw e refl
  | inr e ↦
      let all = take-over n bytes (ground arith) in
      let none_left = drop-all n bytes (ground arith) in rw (e, all, none_left) refl
]
