-- ===== src/Prelude/Int.antt =====
-- The signed machine integers `i32` and `i64`: their values, with the range written out where the
-- source has one.
use Prim.Native.Nat.{ℕ, zero, suc, ◌^◌, ◌≤◌}
use mathlib.Core.Bool.{Bool, true, false}
use odf_crypto.Prelude.Bools.{leb}

-- `negsuc n` is -(n + 1).
pub data ℤ : Type 0 where
  pos : ℕ → ℤ
  negsuc : ℕ → ℤ

-- `-(n as i64)`
abbrev pub neg : ℕ → ℤ
neg zero = pos 0
neg (suc n) = negsuc n

abbrev pub unsigned_abs : ℤ → ℕ
unsigned_abs (pos n) = n
unsigned_abs (negsuc n) = suc n

-- `0 < a`
abbrev pub is_positive : ℤ → Bool
is_positive (pos zero) = false
is_positive (pos (suc n)) = true
is_positive (negsuc n) = false

-- `a == 0`
abbrev pub is_zero : ℤ → Bool
is_zero (pos zero) = true
is_zero (pos (suc n)) = false
is_zero (negsuc n) = false

-- `(lo..=hi).contains(&a)` for `lo` and `hi` that are not negative
abbrev pub in_range_ℤ : ℕ → ℕ → ℤ → Bool
in_range_ℤ lo hi (pos n) = elim (leb lo n) [ true ↦ leb n hi | false ↦ false ]
in_range_ℤ lo hi (negsuc n) = false

-- `a` is an `iw`, for the `w` with `bound = 2 ^ (w - 1)`.
abbrev pub Fits : ℕ → ℤ → Type 0
Fits bound (pos n) = suc n ≤ bound
Fits bound (negsuc n) = suc n ≤ bound

abbrev pub i32_bound : ℕ
i32_bound = 2 ^ 31

abbrev pub i64_bound : ℕ
i64_bound = 2 ^ 63

abbrev pub leb_ℤ : ℤ → ℤ → Bool
leb_ℤ (pos a) (pos b) = leb a b
leb_ℤ (pos a) (negsuc b) = false
leb_ℤ (negsuc a) (pos b) = true
leb_ℤ (negsuc a) (negsuc b) = leb b a
