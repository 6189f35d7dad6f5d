-- ===== src/Stream/Ghash/Pieces.antt =====
-- src/stream.rs: the pieces in which the data comes do not matter.
use odf_crypto.Prelude.{
  ℕ, ◌+◌, ◌-◌, ◌*◌, ◌%◌, List, [], ◌∷◌, ◌++◌, ◌≡◌, refl, sym, ap, ◌∙◌, subst, arith, Bytes, leb,
  ltb, if◌then◌else◌, Bool-cases, inl, inr, length, length-append, take, drop, take-drop,
  length-take, zeros, be_bytes,
}
use mathlib.Core.List.{append_assoc, append-nil}
use odf_crypto.Decrypt.Slice.Splice.{length-overwrite}
use odf_crypto.Stream.Ghash.Absorbed.{
  BlockByBlock, Absorbed, absorb_blocks-Absorbed, counting, fill_partial-Absorbed, closed-hash,
  closed-aligned,
}
use odf_crypto.Stream.Ghash.Whole.{joined, updates, ghash_of}
use odf_crypto.Stream.Ghash.{
  GhashCrate, GhashStream, new_ghash, absorb_blocks, fill_partial, close_partial, update_open,
  update, finalize,
}

take-all : (xs : Bytes) → take (length xs) xs ≡ xs
take-all [] = refl
take-all (x ∷ xs) = ap (λ (r : Bytes). x ∷ r) (take-all xs)

module _ (crate : GhashCrate) (laws : BlockByBlock crate) (h0 : crate.State) where
  nothing_open :
      (s : GhashStream crate) (msg : Bytes) (a : Absorbed crate laws h0 s msg)
      → s.partial_len ≡ 0
      → a.front ≡ msg
  nothing_open s msg a none_open =
      sym (append-nil a.front)
      ∙ ap (λ (t : Bytes). a.front ++ t)
          (ap (λ (k : ℕ). take k s.partial) (sym none_open) ∙ a.open_bytes)
      ∙ a.message

  update_open-Absorbed :
      (s : GhashStream crate) (msg bytes : Bytes)
      → Absorbed crate laws h0 s msg
      → Absorbed crate laws h0
          (update_open crate (record s { ct_len = s.ct_len + length bytes }) bytes)
          (msg ++ bytes)
  unfolding update_open fill_partial close_partial
  update_open-Absorbed s msg bytes a =
      let n = s.ct_len + length bytes in
      let t =
        if leb (16 - s.partial_len) (length bytes) then 16 - s.partial_len else length bytes in
      let piece = take t bytes in
      let small = a.open_small in
      let long : length piece ≡ t = length-take t bytes (ground arith) in
      let whole : (msg ++ piece) ++ drop t bytes ≡ msg ++ bytes =
        append_assoc msg piece (drop t bytes) ∙ ap (λ (b : Bytes). msg ++ b) (take-drop t bytes) in
      elim (Bool-cases (ltb (s.partial_len + length piece) 16)) [
        | inl e ↦
            let all : t ≡ length bytes = ground arith in
            let same : piece ≡ bytes = ap (λ (k : ℕ). take k bytes) all ∙ take-all bytes in
            rw e (
              subst
                (λ (m : Bytes).
                  Absorbed crate laws h0
                    (fill_partial crate (counting crate laws h0 s msg piece a n) piece) m)
                (ap (λ (b : Bytes). msg ++ b) same)
                (fill_partial-Absorbed crate laws h0 s msg piece a n (ground arith)
                  (omega (arith, a.counted, long, all))))
        | inr e ↦
            let full : s.partial_len + length piece ≡ 16 = ground arith in
            rw e (
              subst
                (λ (m : Bytes).
                  Absorbed crate laws h0
                    (absorb_blocks crate
                      (close_partial crate
                        (fill_partial crate (counting crate laws h0 s msg piece a n) piece))
                      (drop t bytes))
                    m)
                whole
                (absorb_blocks-Absorbed crate laws h0
                  (close_partial crate
                    (fill_partial crate (counting crate laws h0 s msg piece a n) piece))
                  (msg ++ piece) (drop t bytes) (closed-hash crate laws h0 s msg piece a n full)
                  (closed-aligned crate laws h0 s msg piece a n full)
                  (length-overwrite s.partial_len piece s.partial ∙ a.room)
                  (omega (
                    arith,
                    a.counted,
                    ap length whole,
                    length-append msg bytes,
                    length-append (msg ++ piece) (drop t bytes),
                  ))))
      ]

  update-Absorbed :
      (s : GhashStream crate) (msg bytes : Bytes)
      → Absorbed crate laws h0 s msg
      → Absorbed crate laws h0 (update crate s bytes) (msg ++ bytes)
  unfolding update
  update-Absorbed s msg bytes a = elim (Bool-cases (ltb 0 s.partial_len)) [
    | inl e ↦ rw e (update_open-Absorbed s msg bytes a)
    | inr e ↦
        let same = nothing_open s msg a (ground arith) in
        rw e (
          absorb_blocks-Absorbed crate laws h0 (record s { ct_len = s.ct_len + length bytes }) msg
            bytes (a.hashed ∙ ap (crate.update_padded h0) same)
            (ap (λ (m : Bytes). length m % 16) (sym same) ∙ a.whole) a.room
            (omega (arith, a.counted)))
  ]

  updates-Absorbed :
      (s : GhashStream crate) (msg : Bytes) (pieces : List Bytes)
      → Absorbed crate laws h0 s msg
      → Absorbed crate laws h0 (updates crate s pieces) (msg ++ joined pieces)
  updates-Absorbed s msg [] a = subst (Absorbed crate laws h0 s) (sym (append-nil msg)) a
  updates-Absorbed s msg (piece ∷ pieces) a =
      subst (Absorbed crate laws h0 (updates crate (update crate s piece) pieces))
        (append_assoc msg piece (joined pieces))
        (updates-Absorbed (update crate s piece) (msg ++ piece) pieces
          (update-Absorbed s msg piece a))

  finalize-Absorbed :
      (s : GhashStream crate) (msg : Bytes)
      → Absorbed crate laws h0 s msg
      → finalize crate s ≡ ghash_of crate h0 msg
  unfolding finalize
  finalize-Absorbed s msg a =
      let padded : (if ltb 0 s.partial_len
            then crate.update_padded s.h (take s.partial_len s.partial)
            else s.h)
          ≡ crate.update_padded h0 msg =
        elim (Bool-cases (ltb 0 s.partial_len)) [
          | inl e ↦ rw e (
              ap (crate.update_padded s.h) a.open_bytes
              ∙ ap (λ (h : crate.State). crate.update_padded h a.tail) a.hashed
              ∙ sym (laws.split h0 a.front a.tail a.whole)
              ∙ ap (crate.update_padded h0) a.message)
          | inr e ↦
              rw e (a.hashed ∙ ap (crate.update_padded h0) (nothing_open s msg a (ground arith)))
        ] in
      ap
        (λ (h : crate.State).
          crate.finalize (crate.update h (zeros 8 ++ be_bytes 8 (s.ct_len * 8))))
        padded
      ∙ ap
          (λ (n : ℕ).
            crate.finalize
              (crate.update (crate.update_padded h0 msg) (zeros 8 ++ be_bytes 8 (n * 8))))
          a.counted

  -- However the data is cut into pieces, empty ones included, the stream's tag is the GHASH of the
  -- whole data with its length; it is assumed that the crate takes bytes block by block.
  pub updates-ghash :
      (pieces : List Bytes)
      → finalize crate (updates crate (new_ghash crate h0) pieces)
        ≡ ghash_of crate h0 (joined pieces)
  updates-ghash pieces =
      finalize-Absorbed (updates crate (new_ghash crate h0) pieces) (joined pieces) (
        updates-Absorbed (new_ghash crate h0) [] pieces (record {
          front = [];
          tail = [];
          message = refl;
          whole = omega arith;
          hashed = sym (laws.empty h0);
          open_bytes = refl;
          open_len = refl;
          open_small = omega arith;
          room = refl;
          counted = refl;
        }))
