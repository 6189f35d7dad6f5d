-- ===== src/Prelude/Buffer.antt =====
-- Buffers of bytes: a zeroed allocation, a bounded write into it, its chunks, and the bytes of words.
use Prim.Native.Nat.{ℕ, zero, suc, ◌+◌, ◌-◌, ◌*◌, ◌/◌, ◌%◌, ◌^◌, ◌≤◌}
use mathlib.Core.Path.{◌≡◌, refl, ap, ◌∙◌}
use mathlib.Core.Bool.{Bool, true, false}
use mathlib.Core.List.{List, [], ◌∷◌, ◌++◌}
use mathlib.Core.Logic.{inl, inr}
use native.Mathlib.Omega.{arith}
use odf_crypto.Prelude.Bools.{leb, ◌==◌, if◌then◌else◌, Bool-cases}
use odf_crypto.Prelude.Lists.{length, take, length-append}
use odf_crypto.Prelude.Text.{Bytes, str_eq}

-- `vec![0; n]`
abbrev pub zeros : ℕ → Bytes
zeros zero = []
zeros (suc n) = 0 ∷ zeros n

abbrev pub drop {ℓ} : {A : Type ℓ} → ℕ → List A → List A
drop zero xs = xs
drop (suc n) [] = []
drop (suc n) (x ∷ xs) = drop n xs

-- `copy_from_slice` into the buffer from index `off` on.
abbrev pub overwrite : ℕ → Bytes → Bytes → Bytes
overwrite zero [] buf = buf
overwrite zero (b ∷ src) [] = []
overwrite zero (b ∷ src) (x ∷ buf) = b ∷ overwrite zero src buf
overwrite (suc off) src [] = []
overwrite (suc off) src (x ∷ buf) = x ∷ overwrite off src buf

-- `if let Some(dst) = buf.get_mut(off..off + len) { dst.copy_from_slice(src) }`
unfoldable pub write_at : ℕ → Bytes → Bytes → Bytes
write_at off src buf = if leb (off + length src) (length buf) then overwrite off src buf else buf

-- `as_chunks::<64>().0`: whole chunks only. The number is how many bytes the open chunk still takes.
unfoldable pub chunk_loop : ℕ → Bytes → Bytes → List Bytes
chunk_loop left acc [] = []
chunk_loop left acc (x ∷ xs) = elim (left == 1) [
  | true ↦ (acc ++ x ∷ []) ∷ chunk_loop 64 [] xs
  | false ↦ chunk_loop (left - 1) (acc ++ x ∷ []) xs
]

unfoldable pub chunks_64 : Bytes → List Bytes
chunks_64 = chunk_loop 64 []

-- `to_be_bytes`
abbrev pub be_bytes : ℕ → ℕ → Bytes
be_bytes zero n = []
be_bytes (suc k) n = (n / 256 ^ k % 256) ∷ be_bytes k n

pub length-zeros : (n : ℕ) → length (zeros n) ≡ n
length-zeros zero = refl
length-zeros (suc n) = ap suc (length-zeros n)

pub zeros-add : (m n : ℕ) → zeros (m + n) ≡ zeros m ++ zeros n
zeros-add zero n = ground arith
zeros-add (suc m) n =
    let e : suc m + n ≡ suc (m + n) = omega arith in
    ap zeros e ∙ ap (λ (r : Bytes). 0 ∷ r) (zeros-add m n)

pub length-be_bytes : (k n : ℕ) → length (be_bytes k n) ≡ k
length-be_bytes zero n = refl
length-be_bytes (suc k) n = ap suc (length-be_bytes k n)

pub overwrite-at :
    (pre src old post : Bytes)
    → length old ≡ length src
    → overwrite (length pre) src (pre ++ (old ++ post)) ≡ pre ++ (src ++ post)
overwrite-at [] [] [] post h = refl
overwrite-at [] [] (o ∷ old) post h = absurd (omega arith)
overwrite-at [] (s ∷ src) [] post h = absurd (omega arith)
overwrite-at [] (s ∷ src) (o ∷ old) post h =
    ap (λ (r : Bytes). s ∷ r) (overwrite-at [] src old post (omega arith))
overwrite-at (p ∷ pre) src old post h = ap (λ (r : Bytes). p ∷ r) (overwrite-at pre src old post h)

-- The write fits: it replaces as many bytes as it brings.
pub write_at-fits :
    (pre src old post : Bytes)
    → length old ≡ length src
    → write_at (length pre) src (pre ++ (old ++ post)) ≡ pre ++ (src ++ post)
unfolding write_at
write_at-fits pre src old post h =
    let total = length-append pre (old ++ post) in
    let rest = length-append old post in
    let fits : leb (length pre + length src) (length (pre ++ (old ++ post))) ≡ true =
      ground (arith, total, rest, h) in
    rw fits (overwrite-at pre src old post h)

pub take-drop : (n : ℕ) (xs : Bytes) → take n xs ++ drop n xs ≡ xs
take-drop zero xs = refl
take-drop (suc n) [] = refl
take-drop (suc n) (x ∷ xs) = ap (λ (r : Bytes). x ∷ r) (take-drop n xs)

pub length-take : (n : ℕ) (xs : Bytes) → n ≤ length xs → length (take n xs) ≡ n
length-take zero xs h = refl
length-take (suc n) [] h = absurd (omega arith)
length-take (suc n) (x ∷ xs) h = ap suc (length-take n xs (omega arith))

chunk_loop-append :
    (xs ys acc : Bytes) (left m : ℕ)
    → 1 ≤ left
    → length xs ≡ left + m * 64
    → chunk_loop left acc (xs ++ ys) ≡ chunk_loop left acc xs ++ chunks_64 ys
unfolding chunk_loop chunks_64
chunk_loop-append [] ys acc left m h l = absurd (omega arith)
chunk_loop-append (x ∷ []) ys acc left m h l = elim (Bool-cases (left == 1)) [
  | inr more ↦ absurd (ground arith)
  | inl last ↦ rw (last, chunk_loop) refl
]
chunk_loop-append (x ∷ z ∷ zs) ys acc left m h l = elim (Bool-cases (left == 1)) [
  | inr more ↦
      rw (more, chunk_loop)
        (chunk_loop-append (z ∷ zs) ys (acc ++ x ∷ []) (left - 1) m (ground arith) (ground arith))
  | inl last ↦
      rw (last, chunk_loop)
        (ap (λ (r : List Bytes). (acc ++ x ∷ []) ∷ r)
          (chunk_loop-append (z ∷ zs) ys [] 64 (m - 1) (omega arith) (ground arith)))
]

pub chunks_64-append :
    (xs ys : Bytes) (m : ℕ)
    → length xs ≡ m * 64
    → chunks_64 (xs ++ ys) ≡ chunks_64 xs ++ chunks_64 ys
unfolding chunks_64 chunk_loop
chunks_64-append [] ys m h = refl
chunks_64-append (x ∷ xs) ys zero h = absurd (omega arith)
chunks_64-append (x ∷ xs) ys (suc m) h =
    chunk_loop-append (x ∷ xs) ys [] 64 m (omega arith) (omega arith)

-- `ends_with` of a slice
abbrev pub has_suffix : List ℕ → List ℕ → Bool
has_suffix suffix s =
    if leb (length suffix) (length s)
    then str_eq (drop (length s - length suffix) s) suffix
    else false

pub length-drop : (n : ℕ) (xs : List ℕ) → length (drop n xs) ≡ length xs - n
length-drop zero xs = omega arith
length-drop (suc n) [] = omega arith
length-drop (suc n) (x ∷ xs) = omega (arith, length-drop n xs)
