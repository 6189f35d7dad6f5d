-- ===== src/Kdf/StarOffice.antt =====
-- src/kdf.rs: StarOffice's digest against SHA-1's own padding.
use odf_crypto.Prelude.{
  ℕ, ◌+◌, ◌-◌, ◌*◌, ◌/◌, ◌%◌, ◌^◌, ◌<◌, List, [], ◌∷◌, ◌++◌, ◌≡◌, refl, sym, ap, ◌∙◌, arith, Bytes,
  leb, if◌then◌else◌, in_range, length, length-append, take, drop, zeros, length-zeros, zeros-add,
  write_at, write_at-fits, be_bytes, length-be_bytes, chunks_64, chunks_64-append, take-drop,
  length-take, length-drop,
}
use mathlib.Core.List.{append_assoc, append-nil}
use odf_crypto.Kdf.{Hashes, sha1_init, sha1_block, pad, digest_slot, staroffice_sha1}

-- The zeros of SHA-1: as few as end the message and its eight bytes of length at a block.
abbrev pub sha1_zeros : ℕ → ℕ
sha1_zeros n = (119 - n % 64) % 64

-- StarOffice adds a block where the length leaves 52 to 55 bytes in the last one.
abbrev pub star_zeros : ℕ → ℕ
star_zeros n = if in_range 52 55 (n % 64) then sha1_zeros n + 64 else sha1_zeros n

-- The message with a terminator, so many zeros and its length in bits.
abbrev pub padded_with : ℕ → Bytes → Bytes
padded_with k msg = msg ++ (0x80 ∷ (zeros k ++ be_bytes 8 (length msg * 8)))

blank_parts : (t k : ℕ) → zeros (t + (1 + (k + 8))) ≡ zeros t ++ (0 ∷ (zeros k ++ zeros 8))
blank_parts t k =
    zeros-add t (1 + (k + 8))
    ∙ ap (λ (r : Bytes). zeros t ++ r)
        (zeros-add 1 (k + 8) ∙ ap (λ (r : Bytes). 0 ∷ r) (zeros-add k 8))

-- The three writes fill a buffer that is one terminator, `k` zeros and eight bytes longer.
fill :
    (tail src : Bytes) (k total : ℕ)
    → length src ≡ 8
    → total ≡ length tail + (1 + (k + 8))
    → write_at (total - 8) src (write_at (length tail) (0x80 ∷ []) (write_at 0 tail (zeros total)))
      ≡ tail ++ (0x80 ∷ (zeros k ++ src))
fill tail src k total eight e =
    let first =
      write_at-fits [] tail (zeros (length tail)) (0 ∷ (zeros k ++ zeros 8))
        (length-zeros (length tail)) in
    let second = write_at-fits tail (0x80 ∷ []) (0 ∷ []) (zeros k ++ zeros 8) refl in
    let head : Bytes = tail ++ (0x80 ∷ zeros k) in
    let third = write_at-fits head src (zeros 8) [] (sym eight) in
    let long : length head ≡ total - 8 =
      omega (arith, e, length-append tail (0x80 ∷ zeros k), length-zeros k) in
    let regroup : tail ++ (0x80 ∷ (zeros k ++ zeros 8)) ≡ head ++ (zeros 8 ++ []) =
      sym (append_assoc tail (0x80 ∷ zeros k) (zeros 8)) in
    ap
      (λ (b : Bytes).
        write_at (total - 8) src (write_at (length tail) (0x80 ∷ []) (write_at 0 tail b)))
      (ap zeros e ∙ blank_parts (length tail) k)
    ∙ ap (λ (b : Bytes). write_at (total - 8) src (write_at (length tail) (0x80 ∷ []) b)) first
    ∙ ap (write_at (total - 8) src) (second ∙ regroup)
    ∙ ap (λ (o : ℕ). write_at o src (head ++ (zeros 8 ++ []))) (sym long)
    ∙ third
    ∙ ap (λ (r : Bytes). head ++ r) (append-nil src)
    ∙ append_assoc tail (0x80 ∷ zeros k) src

pad-bytes :
    (tail : Bytes) (bit_len : ℕ)
    → length tail < 64
    → pad tail bit_len ≡ tail ++ (0x80 ∷ (zeros (star_zeros (length tail)) ++ be_bytes 8 bit_len))
unfolding pad
pad-bytes tail bit_len h =
    fill tail (be_bytes 8 bit_len) (star_zeros (length tail))
      (if leb 52 (length tail) then 2 * sha1_block else sha1_block) (length-be_bytes 8 bit_len)
      (ground arith)

-- For a message whose bits an `u64` counts, StarOffice's digest is that of the message with the
-- padding of SHA-1, and one block of zeros more where the length leaves 52 to 55 bytes in the last
-- block; it is assumed that `compress` takes blocks in their order.
pub staroffice_sha1-padding :
    (hashes : Hashes)
    → ((state : List ℕ) (xs ys : List Bytes)
        → hashes.compress state (xs ++ ys) ≡ hashes.compress (hashes.compress state xs) ys)
    → (msg : Bytes) → length msg * 8 < 2 ^ 64
    → staroffice_sha1 hashes msg
      ≡ digest_slot
          (hashes.compress sha1_init (chunks_64 (padded_with (star_zeros (length msg)) msg)))
unfolding staroffice_sha1
staroffice_sha1-padding hashes in_order msg short =
    let n = length msg in
    let full = n - n % 64 in
    let bits : n % 2 ^ 64 * 8 % 2 ^ 64 ≡ n * 8 = omega arith in
    let front = length-take full msg (omega arith) in
    let back = length-drop full msg in
    let tail = drop full msg in
    let small : length tail < 64 = omega (arith, back) in
    let same : star_zeros (length tail) ≡ star_zeros n =
      let r : length tail % 64 ≡ n % 64 = omega (arith, back) in
      ap (λ (m : ℕ). if in_range 52 55 m then (119 - m) % 64 + 64 else (119 - m) % 64) r in
    let padding : Bytes = 0x80 ∷ (zeros (star_zeros n) ++ be_bytes 8 (n * 8)) in
    let padded : pad tail (n % 2 ^ 64 * 8 % 2 ^ 64) ≡ tail ++ padding =
      ap (pad tail) bits
      ∙ pad-bytes tail (n * 8) small
      ∙ ap (λ (k : ℕ). tail ++ (0x80 ∷ (zeros k ++ be_bytes 8 (n * 8)))) same in
    let whole : take full msg ++ (tail ++ padding) ≡ msg ++ padding =
      sym (append_assoc (take full msg) tail padding)
      ∙ ap (λ (m : Bytes). m ++ padding) (take-drop full msg) in
    let blocks =
      chunks_64-append (take full msg) (tail ++ padding) (n / 64) (omega (arith, front)) in
    ap
      (λ (b : Bytes).
        digest_slot
          (hashes.compress (hashes.compress sha1_init (chunks_64 (take full msg))) (chunks_64 b)))
      padded
    ∙ ap digest_slot
        (sym (in_order sha1_init (chunks_64 (take full msg)) (chunks_64 (tail ++ padding))))
    ∙ ap (λ (b : List Bytes). digest_slot (hashes.compress sha1_init b))
        (sym blocks ∙ ap chunks_64 whole)
