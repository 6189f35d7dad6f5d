-- ===== src/Stream/Cbc/Ends.antt =====
-- src/stream.rs: the loop of `CbcDecryptReader` ends.
use odf_crypto.Prelude.{
  ℕ, suc, ◌-◌, ◌%◌, ◌≤◌, ◌<◌, Bool, true, false, not, ◌||◌, List, [], ◌∷◌, ◌++◌, ◌≡◌, refl, ap, ◌∙◌,
  subst, arith, Bytes, ltb, ◌==◌, in_range, is_empty, length, take, length-take, length-drop,
  length-append, Bool-cases, inl, inr, Result, ok, err, ◌>>=◌, >>=-ok, guard-ok, ok-injective,
  Refuses, Refuses->>=, Refuses-guard,
}
use odf_crypto.Limits.{aes_block_len}
use odf_crypto.Stream.Sink.{StreamError}
use odf_crypto.Stream.Deflate.Ends.{HasEnded}
use odf_crypto.Stream.Reader.{Reader, fill}
use odf_crypto.Stream.Reader.Ends.{fill-HasEnded}
use odf_crypto.Stream.Cbc.{
  CipherCrate, last_byte, decrypt_blocks, into_io, CbcDecryptReader, fresh_cbc, held_bytes,
  room_behind, hold_back, refill_blocks, await_plain, cbc_read,
}
use odf_crypto.Stream.Cbc.Unpadded.{Chains, decrypt_blocks-ok, cbc_reads}

module _ (cbc : CipherCrate) (chains : Chains cbc) (reader : Reader) where
  abbrev R : Type 0
  R = CbcDecryptReader cbc reader

  abbrev HoldsBlock : R → Type 0
  HoldsBlock r = length (held_bytes cbc reader r.held) ≤ aes_block_len

  abbrev is_ready : R → Bool
  is_ready r = not (is_empty r.buf) || r.is_finished

  hold_back-ready :
      (r next : R) (span : Bytes) (at_end : Bool)
      → (at_end ≡ false → aes_block_len < length span)
      → hold_back cbc reader r span at_end ≡ ok next
      → HoldsBlock next × (is_ready next ≡ true)
  unfolding hold_back
  hold_back-ready r next span true long h =
      let (fits, last) =
        guard-ok
          (not (in_range 1 aes_block_len (last_byte span)) || ltb (length span) (last_byte span)) _
          _ h in
      subst (λ (q : R). HoldsBlock q × (is_ready q ≡ true)) (ok-injective last)
        (omega arith, ground arith)
  hold_back-ready r next span false long h =
      let cut = length span - aes_block_len in
      let d = length-drop cut span in
      let t = length-take cut span (omega arith) in
      subst (λ (q : R). HoldsBlock q × (is_ready q ≡ true)) (ok-injective h)
        (omega (arith, d), ready (take cut span) (omega (arith, t, long refl)))
    where
      ready : (b : Bytes) → 0 < length b → not (is_empty b) || r.is_finished ≡ true
      ready [] e = absurd (omega (arith, e))
      ready (x ∷ b) e = refl

  -- After a refill there is plaintext, or the end.
  refill_blocks-ready :
      (r next : R)
      → HoldsBlock r
      → refill_blocks cbc reader r ≡ ok next
      → HoldsBlock next × (is_ready next ≡ true)
  unfolding refill_blocks
  refill_blocks-ready r next small h =
      let held = held_bytes cbc reader r.held in
      let room = room_behind cbc reader held in
      let (got, h1, e) = >>=-ok (fill reader room r.src) _ h in
      let (even, h2) = guard-ok (not (length got.0 % aes_block_len == 0)) _ _ h1 in
      let (plain, h3, e2) = >>=-ok (into_io cbc (decrypt_blocks cbc r.dec got.0)) _ h2 in
      let (busy, h4) = guard-ok (length (held ++ plain.1) == 0) _ _ h3 in
      let opened = decrypt_blocks-ok cbc r.dec got.0 plain e2 in
      let same : length plain.1 ≡ length got.0 =
        ap (λ (q : cbc.Decryptor × Bytes). length q.1) opened
        ∙ chains.length_kept r.dec got.0 (ground arith) in
      hold_back-ready (record r { src = got.1; dec = plain.0 }) next (held ++ plain.1)
        (ltb (length got.0) room)
        (λ full. ground (arith, same, length-append held plain.1, full, small)) h4

  module _ (reads : (n : ℕ) (s : reader.State) → Refuses HasEnded (reader.read n s)) where
    hold_back-HasEnded :
        (r : R) (span : Bytes) (at_end : Bool)
        → Refuses HasEnded (hold_back cbc reader r span at_end)
    unfolding hold_back
    hold_back-HasEnded r span true =
        Refuses-guard HasEnded
          (not (in_range 1 aes_block_len (last_byte span)) || ltb (length span) (last_byte span)) _
          _ (λ e. λ s. cc) tt
    hold_back-HasEnded r span false = tt

    refill_blocks-HasEnded : (r : R) → Refuses HasEnded (refill_blocks cbc reader r)
    unfolding refill_blocks decrypt_blocks
    refill_blocks-HasEnded r =
        let room = room_behind cbc reader (held_bytes cbc reader r.held) in
        Refuses->>= HasEnded (fill reader room r.src) _ (fill-HasEnded reader reads room r.src)
          (λ got e.
            Refuses-guard HasEnded (not (length got.0 % aes_block_len == 0)) _ _ (λ e2. λ s. cc)
              (Refuses->>= HasEnded (into_io cbc (decrypt_blocks cbc r.dec got.0)) _
                (elim (Bool-cases (not (length got.0 % aes_block_len == 0))) [
                  | inl tail ↦ rw tail (λ s. cc)
                  | inr even ↦ rw even tt
                ])
                (λ plain e2.
                  Refuses-guard HasEnded (length (held_bytes cbc reader r.held ++ plain.1) == 0) _ _
                    (λ e3. λ s. cc) (hold_back-HasEnded _ _ _))))

    await-ready :
        (fuel : ℕ) (r : R) → is_ready r ≡ true → await_plain cbc reader (suc fuel) r ≡ ok r
    unfolding await_plain
    await-ready fuel r e = rw (await_plain, e) refl

    -- One turn of the loop is enough.
    settled :
        (x : Result StreamError R)
        → ((q : R) → x ≡ ok q → HoldsBlock q × (is_ready q ≡ true))
        → x >>= await_plain cbc reader 1 ≡ x
    settled (ok q) h = await-ready 0 q (h q refl).1
    settled (err failure) h = refl

    await_plain-turn :
        (r : R)
        → HoldsBlock r
        → is_ready r ≡ false
        → await_plain cbc reader 2 r ≡ refill_blocks cbc reader r
    unfolding await_plain
    await_plain-turn r small goes =
        rw (await_plain, goes)
          (settled (refill_blocks cbc reader r) (λ q e. refill_blocks-ready r q small e))

    await_plain-HasEnded :
        (r : R)
        → HoldsBlock r
        → Refuses HasEnded (await_plain cbc reader 2 r)
          × ((q : R) → await_plain cbc reader 2 r ≡ ok q → HoldsBlock q)
    await_plain-HasEnded r small = elim (Bool-cases (is_ready r)) [
      | inl stays ↦ rw (await-ready 1 r stays) (tt, λ q e. subst HoldsBlock (ok-injective e) small)
      | inr goes ↦
          rw (await_plain-turn r small goes)
            (refill_blocks-HasEnded r, λ q e. (refill_blocks-ready r q small e).0)
    ]

    cbc_read-HasEnded :
        (n : ℕ) (r : R)
        → HoldsBlock r
        → Refuses HasEnded (cbc_read cbc reader n r)
          × ((first : Bytes × R) → cbc_read cbc reader n r ≡ ok first → HoldsBlock first.1)
    unfolding cbc_read
    cbc_read-HasEnded n r small =
        let (ended, still) = await_plain-HasEnded r small in
        (
          Refuses->>= HasEnded (await_plain cbc reader 2 r) _ ended (λ ready e. tt),
          λ first h.
              let (ready, last, e) = >>=-ok (await_plain cbc reader 2 r) _ h in
              subst (λ (q : Bytes × R). HoldsBlock q.1) (ok-injective last) (still ready e),
        )

    reads-HasEnded :
        (sizes : List ℕ) (r : R) → HoldsBlock r → Refuses HasEnded (cbc_reads cbc reader sizes r)
    reads-HasEnded [] r small = tt
    reads-HasEnded (n ∷ sizes) r small =
        let (ended, still) = cbc_read-HasEnded n r small in
        Refuses->>= HasEnded (cbc_read cbc reader n r) _ ended (λ first e.
          Refuses->>= HasEnded (cbc_reads cbc reader sizes first.1) _
            (reads-HasEnded sizes first.1 (still first e)) (λ more e2. tt))

    -- Reads into buffers of any sizes from a new reader all come to an end, each with plaintext or
    -- with an error of the reader or the data; it is assumed that the reader ends, and that the
    -- cipher keeps the length.
    pub cbc_reads-HasEnded :
        (sizes : List ℕ) (src : reader.State) (dec : cbc.Decryptor)
        → Refuses HasEnded (cbc_reads cbc reader sizes (fresh_cbc cbc reader src dec))
    cbc_reads-HasEnded sizes src dec =
        reads-HasEnded sizes (fresh_cbc cbc reader src dec) (omega arith)
