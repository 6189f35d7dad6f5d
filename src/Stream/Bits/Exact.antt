-- ===== src/Stream/Bits/Exact.antt =====
-- src/stream.rs: what `ct_eq` compares.
use odf_crypto.Prelude.{
  ℕ, zero, suc, ◌*◌, ◌/◌, ◌<◌, Bool, true, ◌&&◌, [], ◌∷◌, ◌≡◌, ◌↔◌, ap, ◌∙◌, arith, Bytes, All,
  ◌==◌, Bool-cases, inl, inr, length, str_eq, str_eq_iff,
}
use odf_crypto.Stream.Bits.{xor_bits, or_bits, xor, difference, ct_eq}

-- 2 to a number of bits
abbrev top : ℕ → ℕ
top zero = 1
top (suc k) = 2 * top k

xor_bits-zero : (k a b : ℕ) → a < top k → b < top k → (xor_bits k a b == 0) ≡ (a == b)
xor_bits-zero zero a b h l = ground arith
xor_bits-zero (suc k) a b h l =
    let rest = xor_bits-zero k (a / 2) (b / 2) (omega (arith, h)) (omega (arith, l)) in ground arith

or_bits-zero : (k a b : ℕ) → a < top k → b < top k → (or_bits k a b == 0) ≡ (a == 0 && b == 0)
or_bits-zero zero a b h l = ground arith
or_bits-zero (suc k) a b h l =
    let rest = or_bits-zero k (a / 2) (b / 2) (omega (arith, h)) (omega (arith, l)) in ground arith

xor_bits-below : (k a b : ℕ) → xor_bits k a b < top k
xor_bits-below zero a b = omega arith
xor_bits-below (suc k) a b = let rest = xor_bits-below k (a / 2) (b / 2) in ground arith

or_bits-below : (k a b : ℕ) → or_bits k a b < top k
or_bits-below zero a b = omega arith
or_bits-below (suc k) a b = let rest = or_bits-below k (a / 2) (b / 2) in ground arith

-- A byte
abbrev pub IsByte : ℕ → Type 0
IsByte b = b < 256

difference-zero :
    (diff : ℕ) (got want : Bytes)
    → diff < 256
    → All IsByte got
    → All IsByte want
    → length got ≡ length want
    → (difference diff got want == 0) ≡ (diff == 0 && str_eq got want)
unfolding difference str_eq
difference-zero diff [] [] d g w long = ground arith
difference-zero diff (a ∷ got) [] d g w long = absurd (omega (arith, long))
difference-zero diff [] (b ∷ want) d g w long = absurd (omega (arith, long))
difference-zero diff (a ∷ got) (b ∷ want) d (ga, g) (wb, w) long =
    difference-zero (or_bits 8 diff (xor a b)) got want (or_bits-below 8 diff (xor a b)) g w
      (omega (arith, long))
    ∙ ap (λ (t : Bool). t && str_eq got want)
        (or_bits-zero 8 diff (xor a b) d (xor_bits-below 8 a b)
          ∙ ap (λ (t : Bool). diff == 0 && t) (xor_bits-zero 8 a b ga wb))
    ∙ ground arith

-- The comparison of two texts of bytes, which looks at every pair, says whether they are equal.
pub ct_eq-exact :
    (got want : Bytes) → All IsByte got → All IsByte want → (ct_eq got want ≡ true) ↔ (got ≡ want)
unfolding ct_eq
ct_eq-exact got want g w = elim (Bool-cases (length got == length want)) [
  | inl e ↦
      let zero = difference-zero 0 got want (omega arith) g w (ground arith) in
      let equal = str_eq_iff got want in
      (λ h. equal.0 (ground arith), λ same. let eq = equal.1 same in ground arith)
  | inr e ↦ (
    λ h. absurd (ground arith),
    λ same. let long : length got ≡ length want = ap length same in absurd (ground arith),
  )
]
