-- ===== src/Decrypt/Slice/Splice.antt =====
-- src/decrypt_stream.rs: writing into the zeroed buffer behind the bytes that are there.
use odf_crypto.Prelude.{
  ℕ, zero, suc, ◌+◌, ◌-◌, ◌≤◌, [], ◌∷◌, ◌++◌, ◌≡◌, refl, sym, ap, ◌∙◌, arith, Bytes, leb,
  if◌then◌else◌, length, length-append, take, drop, overwrite, zeros, length-zeros, length-take,
  length-drop,
}
use mathlib.Core.List.{append_assoc}

-- The bytes replace what stands at the position; a gap before it is filled with zeros.
abbrev pub splice : Bytes → ℕ → Bytes → Bytes
splice content at bytes =
    take at (content ++ zeros (at - length content)) ++ (bytes ++ drop (at + length bytes) content)

suc-minus : (n : ℕ) → suc (n - 0) ≡ suc n - 0
suc-minus n = omega arith

minus-all : (n : ℕ) → 0 ≡ 0 - (suc n - 0)
minus-all n = omega arith

shift : (n : ℕ) → suc (0 + n) ≡ 0 + suc n
shift n = omega arith

after : (at n : ℕ) → suc (at + n) ≡ suc at + n
after at n = omega arith

drop-nil : (n : ℕ) (rest : Bytes) → drop {A = ℕ} n [] ++ rest ≡ rest
drop-nil zero rest = refl
drop-nil (suc n) rest = refl

take-zeros :
    (n : ℕ) (content : Bytes) (k : ℕ)
    → n ≤ length content + k
    → take n (content ++ zeros k) ≡ take n (content ++ zeros (n - length content))
take-zeros zero content k h = refl
take-zeros (suc n) [] zero h = absurd (omega (arith, h))
take-zeros (suc n) [] (suc k) h =
    ap (λ (r : Bytes). 0 ∷ r) (take-zeros n [] k (omega (arith, h)))
    ∙ ap (λ (m : ℕ). take (suc n) (zeros m)) (suc-minus n)
take-zeros (suc n) (x ∷ content) k h =
    ap (λ (r : Bytes). x ∷ r) (take-zeros n content k (omega (arith, h)))
    ∙ ap (λ (m : ℕ). x ∷ take n (content ++ zeros m)) (omega arith)

drop-zeros :
    (n : ℕ) (content : Bytes) (k : ℕ)
    → drop n (content ++ zeros k) ≡ drop n content ++ zeros (k - (n - length content))
drop-zeros zero content k = ap (λ (m : ℕ). content ++ zeros m) (omega arith)
drop-zeros (suc n) [] zero = ap zeros (minus-all n)
drop-zeros (suc n) [] (suc k) =
    drop-zeros n [] k ∙ drop-nil n (zeros (k - (n - 0))) ∙ ap zeros (omega arith)
drop-zeros (suc n) (x ∷ content) k =
    drop-zeros n content k ∙ ap (λ (m : ℕ). drop n content ++ zeros (k - m)) (omega arith)

pub overwrite-splits :
    (at : ℕ) (bytes buf : Bytes)
    → at + length bytes ≤ length buf
    → overwrite at bytes buf ≡ take at buf ++ (bytes ++ drop (at + length bytes) buf)
overwrite-splits zero [] buf h = refl
overwrite-splits zero (b ∷ bytes) [] h = absurd (omega (arith, h))
overwrite-splits zero (b ∷ bytes) (x ∷ buf) h =
    ap (λ (r : Bytes). b ∷ r) (overwrite-splits zero bytes buf (omega (arith, h)))
    ∙ ap (λ (m : ℕ). b ∷ (bytes ++ drop m (x ∷ buf))) (shift (length bytes))
overwrite-splits (suc at) bytes [] h = absurd (omega (arith, h))
overwrite-splits (suc at) bytes (x ∷ buf) h =
    ap (λ (r : Bytes). x ∷ r) (overwrite-splits at bytes buf (omega (arith, h)))
    ∙ ap (λ (m : ℕ). x ∷ (take at buf ++ (bytes ++ drop m (x ∷ buf)))) (after at (length bytes))

module _ (content bytes : Bytes) (at room : ℕ)
    (fits : at + length bytes ≤ length content + room) where
  pub left : ℕ
  left = room - (at + length bytes - length content)

  padded-length : length (content ++ zeros room) ≡ length content + room
  padded-length = omega (arith, length-append content (zeros room), length-zeros room)

  pub overwrite-splice :
      overwrite at bytes (content ++ zeros room) ≡ splice content at bytes ++ zeros left
  unfolding left
  overwrite-splice =
      overwrite-splits at bytes (content ++ zeros room) (omega (arith, fits, padded-length))
      ∙ ap (λ (front : Bytes). front ++ (bytes ++ drop (at + length bytes) (content ++ zeros room)))
          (take-zeros at content room (omega (arith, fits)))
      ∙ ap (λ (back : Bytes). take at (content ++ zeros (at - length content)) ++ (bytes ++ back))
          (drop-zeros (at + length bytes) content room)
      ∙ sym (
          append_assoc (take at (content ++ zeros (at - length content)))
            (bytes ++ drop (at + length bytes) content) (zeros left)
          ∙ ap (λ (back : Bytes). take at (content ++ zeros (at - length content)) ++ back)
              (append_assoc bytes (drop (at + length bytes) content) (zeros left)))

  pub splice-length :
      length (splice content at bytes)
      ≡ (if leb (length content) (at + length bytes) then at + length bytes else length content)
  splice-length =
      let gap = zeros (at - length content) in
      let front =
        length-take at (content ++ gap)
          (omega (arith, length-append content gap, length-zeros (at - length content))) in
      let back = length-drop (at + length bytes) content in
      let whole =
        length-append (take at (content ++ gap)) (bytes ++ drop (at + length bytes) content) in
      let rest = length-append bytes (drop (at + length bytes) content) in ground arith

pub length-overwrite : (at : ℕ) (bytes buf : Bytes) → length (overwrite at bytes buf) ≡ length buf
length-overwrite zero [] buf = refl
length-overwrite zero (b ∷ bytes) [] = refl
length-overwrite zero (b ∷ bytes) (x ∷ buf) = ap suc (length-overwrite zero bytes buf)
length-overwrite (suc at) bytes [] = refl
length-overwrite (suc at) bytes (x ∷ buf) = ap suc (length-overwrite at bytes buf)
