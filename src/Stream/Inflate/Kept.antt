-- ===== src/Stream/Inflate/Kept.antt =====
-- src/stream.rs: what every read of the source keeps, every read of an `InflateReader` keeps.
use odf_crypto.Prelude.{
  ℕ, zero, suc, ◌+◌, ◌-◌, not, ◌&&◌, ◌||◌, ◌≡◌, sym, ap, subst, Bytes, ltb, ◌==◌, is_empty, length,
  take, Bool-cases, inl, inr, ok, >>=-ok, guard-ok, ok-injective,
}
use odf_crypto.Stream.Sink.{Sink}
use odf_crypto.Stream.Gcm.{chunk}
use odf_crypto.Stream.Reader.{Reader, fill, fill_loop}
use odf_crypto.Stream.Inflate.{
  Decompressor, refill, tap_input, decompress_turn, step, await, inflate_read,
}
use odf_crypto.Stream.Inflate.Turns.{Inflater, conclude-ok}

module _ (reader : Reader) (Keeps : reader.State → Type 0)
    (keeps : (n : ℕ) (s next : reader.State) (got : Bytes)
      → Keeps s
      → reader.read n s ≡ ok (got, next)
      → Keeps next) where
  fill_loop-Keeps :
      (fuel n : ℕ) (s : reader.State) (q : Bytes × reader.State)
      → Keeps s
      → fill_loop reader fuel n s ≡ ok q
      → Keeps q.1
  unfolding fill_loop
  fill_loop-Keeps zero n s q k h =
      subst (λ (p : Bytes × reader.State). Keeps p.1) (ok-injective h) k
  fill_loop-Keeps (suc fuel) zero s q k h =
      subst (λ (p : Bytes × reader.State). Keeps p.1) (ok-injective h) k
  fill_loop-Keeps (suc fuel) (suc n) s q k h =
      let (first, more, e) = >>=-ok (reader.read (suc n) s) _ h in
      let here = keeps (suc n) s first.1 first.0 k e in
      elim (Bool-cases (is_empty first.0)) [
        | inl empty ↦
            subst (λ (p : Bytes × reader.State). Keeps p.1) (ok-injective (rw empty at more)) here
        | inr some_got ↦
            let g = rw some_got at more in
            let (later, last, e2) =
              >>=-ok (fill_loop reader fuel (suc n - length first.0) first.1) _ g in
            subst (λ (p : Bytes × reader.State). Keeps p.1) (ok-injective last)
              (fill_loop-Keeps fuel (suc n - length first.0) first.1 later here e2)
      ]

  module _ (crate : Decompressor) (sink : Sink) where
    abbrev I : Type 0
    I = Inflater crate reader sink

    refill-Keeps :
        (r next : I) → Keeps r.src → refill crate reader sink r ≡ ok next → Keeps next.src
    unfolding refill fill
    refill-Keeps r next k h = elim (Bool-cases (is_empty r.input && not r.src_done)) [
      | inl wants ↦
          let (got, last, e) = >>=-ok (fill reader chunk r.src) _ (rw wants at h) in
          subst (λ (q : I). Keeps q.src) (ok-injective last)
            (fill_loop-Keeps chunk chunk r.src got k e)
      | inr busy ↦ subst (λ (q : I). Keeps q.src) (ok-injective (rw busy at h)) k
    ]

    decompress_turn-src :
        (r next : I) → decompress_turn crate reader sink r ≡ ok next → next.src ≡ r.src
    unfolding decompress_turn
    decompress_turn-src r next h =
        let call = crate.decompress r.dec r.input r.window r.out_pos (not r.src_done) in
        let (tap, h1, tapped) =
          >>=-ok (tap_input crate reader sink r.tap call.1 (take call.1 r.input)) _ h in
        let (in_limit, h2) = guard-ok (ltb r.limit (r.produced + call.2)) _ _ h1 in
        let (in_expected, h3) = guard-ok (ltb r.expected (r.produced + call.2)) _ _ h2 in
        elim (conclude-ok crate reader sink call.0 _ next h3) [
          | inl (e, exact) ↦ ap (λ (q : I). q.src) e
          | inr e ↦ ap (λ (q : I). q.src) e
        ]

    await-Keeps :
        (fuel : ℕ) (r ready : I)
        → Keeps r.src
        → await crate reader sink fuel r ≡ ok ready
        → Keeps ready.src
    unfolding await step
    await-Keeps zero r ready k h = absurd (cc)
    await-Keeps (suc fuel) r ready k h = elim (Bool-cases (not (r.pending_len == 0) || r.is_done)) [
      | inl stays ↦ subst (λ (q : I). Keeps q.src) (ok-injective (rw (await, stays) at h)) k
      | inr goes ↦
          let (next, later, e) = >>=-ok (step crate reader sink r) _ (rw (await, goes) at h) in
          let (filled, turns, e2) = >>=-ok (refill crate reader sink r) _ e in
          await-Keeps fuel next ready
            (subst Keeps (sym (decompress_turn-src filled next turns)) (refill-Keeps r filled k e2))
            later
    ]

    pub inflate_read-Keeps :
        (n : ℕ) (r : I) (q : Bytes × I)
        → Keeps r.src
        → inflate_read crate reader sink n r ≡ ok q
        → Keeps q.1.src
    unfolding inflate_read
    inflate_read-Keeps n r q k h =
        let (ready, last, e) = >>=-ok (await crate reader sink (reader.bound r.src + 4) r) _ h in
        subst (λ (p : Bytes × I). Keeps p.1.src) (ok-injective last)
          (await-Keeps (reader.bound r.src + 4) r ready k e)
