-- ===== src/Stream/Bits.antt =====
-- src/stream.rs: `ct_eq`, with the operations of `u8` that it uses.
pub mod Exact
use odf_crypto.Prelude.{
  ℕ, zero, suc, ◌+◌, ◌*◌, ◌/◌, ◌%◌, Bool, true, false, not, ◌&&◌, List, [], ◌∷◌, Bytes, ◌==◌,
  if◌then◌else◌, length,
}

-- `^` and `|` on the last bits of two numbers, so many of them
abbrev pub xor_bits : ℕ → ℕ → ℕ → ℕ
xor_bits zero a b = 0
xor_bits (suc k) a b = (if a % 2 == b % 2 then 0 else 1) + 2 * xor_bits k (a / 2) (b / 2)

abbrev pub or_bits : ℕ → ℕ → ℕ → ℕ
or_bits zero a b = 0
or_bits (suc k) a b = (if a % 2 == 0 && b % 2 == 0 then 0 else 1) + 2 * or_bits k (a / 2) (b / 2)

abbrev pub xor : ℕ → ℕ → ℕ
xor a b = xor_bits 8 a b

-- The loop, which goes over all of the pairs.
unfoldable pub difference : ℕ → Bytes → Bytes → ℕ
difference diff (a ∷ got) (b ∷ want) = difference (or_bits 8 diff (xor a b)) got want
difference diff _ _ = diff

unfoldable pub ct_eq : Bytes → Bytes → Bool
ct_eq got want = if not (length got == length want) then false else difference 0 got want == 0
