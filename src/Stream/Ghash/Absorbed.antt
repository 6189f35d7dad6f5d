-- ===== src/Stream/Ghash/Absorbed.antt =====
-- src/stream.rs: what `GhashStream` has absorbed.
use odf_crypto.Prelude.{
  ℕ, zero, suc, ◌+◌, ◌-◌, ◌%◌, ◌≤◌, ◌<◌, [], ◌∷◌, ◌++◌, ◌≡◌, refl, sym, ap, ◌∙◌, arith, Bytes,
  length, length-append, take, drop, take-drop, length-take, length-drop,
}
use mathlib.Core.List.{append_assoc, append-nil}
use odf_crypto.Decrypt.Slice.Splice.{overwrite-splits, length-overwrite}
use odf_crypto.Stream.Ghash.{GhashCrate, GhashStream, absorb_blocks, fill_partial, close_partial}

-- What the ghash crate documents: bytes are taken block by block, and one block is an `update`.
pub record BlockByBlock (crate : GhashCrate) : Type 0 where
  pub split :
      (h : crate.State) (front rest : Bytes)
      → length front % 16 ≡ 0
      → crate.update_padded h (front ++ rest)
        ≡ crate.update_padded (crate.update_padded h front) rest
  pub empty : (h : crate.State) → crate.update_padded h [] ≡ h
  pub block :
      (h : crate.State) (b : Bytes) → length b ≡ 16 → crate.update_padded h b ≡ crate.update h b

pub take-append : (xs ys : Bytes) → take (length xs) (xs ++ ys) ≡ xs
take-append [] ys = refl
take-append (x ∷ xs) ys = ap (λ (r : Bytes). x ∷ r) (take-append xs ys)

pub drop-all : (n : ℕ) (xs : Bytes) → length xs ≤ n → drop n xs ≡ []
drop-all zero [] h = refl
drop-all zero (x ∷ xs) h = absurd (omega (arith, h))
drop-all (suc n) [] h = refl
drop-all (suc n) (x ∷ xs) h = drop-all n xs (omega (arith, h))

module _ (crate : GhashCrate) (laws : BlockByBlock crate) (h0 : crate.State) where
  -- The stream has absorbed the message: whole blocks, and an open one with the rest.
  pub record Absorbed (s : GhashStream crate) (msg : Bytes) : Type 0 where
    pub front : Bytes
    pub tail : Bytes
    pub message : front ++ tail ≡ msg
    pub whole : length front % 16 ≡ 0
    pub hashed : s.h ≡ crate.update_padded h0 front
    pub open_bytes : take s.partial_len s.partial ≡ tail
    pub open_len : s.partial_len ≡ length tail
    pub open_small : s.partial_len < 16
    pub room : length s.partial ≡ 16
    pub counted : s.ct_len ≡ length msg

  -- A stream between two blocks, which has counted more than it has absorbed.
  pub absorb_blocks-Absorbed :
      (s : GhashStream crate) (msg bytes : Bytes)
      → s.h ≡ crate.update_padded h0 msg
      → length msg % 16 ≡ 0
      → length s.partial ≡ 16
      → s.ct_len ≡ length msg + length bytes
      → Absorbed (absorb_blocks crate s bytes) (msg ++ bytes)
  unfolding absorb_blocks
  absorb_blocks-Absorbed s msg bytes hashed aligned room counted =
      let n = length bytes - length bytes % 16 in
      let rest = drop n bytes in
      let short : length rest < 16 = omega (arith, length-drop n bytes) in
      record {
        front = msg ++ take n bytes;
        tail = rest;
        message =
            append_assoc msg (take n bytes) rest ∙ ap (λ (b : Bytes). msg ++ b) (take-drop n bytes);
        whole =
            omega
              (arith, length-append msg (take n bytes), length-take n bytes (omega arith), aligned);
        hashed =
            ap (λ (h : crate.State). crate.update_padded h (take n bytes)) hashed
            ∙ sym (laws.split h0 msg (take n bytes) aligned);
        open_bytes =
            ap (take (length rest)) (overwrite-splits 0 rest s.partial (omega (arith, short, room)))
            ∙ take-append rest (drop (0 + length rest) s.partial);
        open_len = refl;
        open_small = short;
        room = length-overwrite 0 rest s.partial ∙ room;
        counted = counted ∙ sym (length-append msg bytes);
      }

  module _ (s : GhashStream crate) (msg bytes : Bytes) (a : Absorbed s msg) (n : ℕ) where
    abbrev pub counting : GhashStream crate
    counting = record s { ct_len = n }

    filled-partial :
        s.partial_len + length bytes ≤ 16
        → (fill_partial crate counting bytes).partial
          ≡ (a.tail ++ bytes) ++ drop (s.partial_len + length bytes) s.partial
    unfolding fill_partial
    filled-partial fits =
        overwrite-splits s.partial_len bytes s.partial (omega (arith, fits, a.room))
        ∙ ap (λ (t : Bytes). t ++ (bytes ++ drop (s.partial_len + length bytes) s.partial))
            a.open_bytes
        ∙ sym (append_assoc a.tail bytes (drop (s.partial_len + length bytes) s.partial))

    grown : a.front ++ (a.tail ++ bytes) ≡ msg ++ bytes
    grown = sym (append_assoc a.front a.tail bytes) ∙ ap (λ (m : Bytes). m ++ bytes) a.message

    pub fill_partial-Absorbed :
        s.partial_len + length bytes < 16
        → n ≡ length msg + length bytes
        → Absorbed (fill_partial crate counting bytes) (msg ++ bytes)
    unfolding fill_partial
    fill_partial-Absorbed small counted =
        let long : s.partial_len + length bytes ≡ length (a.tail ++ bytes) =
          omega (arith, a.open_len, length-append a.tail bytes) in
        record {
          front = a.front;
          tail = a.tail ++ bytes;
          message = grown;
          whole = a.whole;
          hashed = a.hashed;
          open_bytes =
              ap (take (s.partial_len + length bytes)) (filled-partial (omega (arith, small)))
              ∙ ap
                  (λ (k : ℕ).
                    take k ((a.tail ++ bytes) ++ drop (s.partial_len + length bytes) s.partial))
                  long
              ∙ take-append (a.tail ++ bytes) (drop (s.partial_len + length bytes) s.partial);
          open_len = long;
          open_small = small;
          room = length-overwrite s.partial_len bytes s.partial ∙ a.room;
          counted = counted ∙ sym (length-append msg bytes);
        }

    pub closed-hash :
        s.partial_len + length bytes ≡ 16
        → (close_partial crate (fill_partial crate counting bytes)).h
          ≡ crate.update_padded h0 (msg ++ bytes)
    unfolding close_partial fill_partial
    closed-hash full =
        let none_left : drop (s.partial_len + length bytes) s.partial ≡ [] =
          drop-all (s.partial_len + length bytes) s.partial (omega (arith, full, a.room)) in
        let long : length (a.tail ++ bytes) ≡ 16 =
          omega (arith, full, a.open_len, length-append a.tail bytes) in
        ap (crate.update s.h) (
          filled-partial (omega (arith, full))
          ∙ ap (λ (r : Bytes). (a.tail ++ bytes) ++ r) none_left
          ∙ append-nil (a.tail ++ bytes))
        ∙ sym (laws.block s.h (a.tail ++ bytes) long)
        ∙ ap (λ (h : crate.State). crate.update_padded h (a.tail ++ bytes)) a.hashed
        ∙ sym (laws.split h0 a.front (a.tail ++ bytes) a.whole)
        ∙ ap (crate.update_padded h0) grown

    pub closed-aligned : s.partial_len + length bytes ≡ 16 → length (msg ++ bytes) % 16 ≡ 0
    closed-aligned full = omega (
      arith,
      full,
      a.open_len,
      a.whole,
      ap length grown,
      length-append a.front (a.tail ++ bytes),
      length-append a.tail bytes,
    )
