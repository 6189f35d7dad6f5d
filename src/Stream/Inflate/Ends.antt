-- ===== src/Stream/Inflate/Ends.antt =====
-- src/stream.rs: the loop of `InflateReader` ends.
use odf_crypto.Prelude.{
  List, ℕ, zero, suc, ◌+◌, ◌-◌, ◌≤◌, ◌<◌, Bool, false, not, ◌&&◌, ◌||◌, [], ◌∷◌, ◌≡◌, refl, sym, ap,
  ◌∙◌, subst, arith, Bytes, ltb, ◌==◌, if◌then◌else◌, is_empty, length, take, drop, length-append,
  Bool-cases, inl, inr, ok, >>=-ok, guard-ok, ok-injective, Refuses, Refuses->>=, Refuses-guard,
}
use odf_crypto.Stream.Sink.{Sink}
use odf_crypto.Stream.Gcm.{chunk}
use odf_crypto.Stream.Deflate.Ends.{HasEnded}
use odf_crypto.Stream.Reader.Ends.{fill-HasEnded}
use odf_crypto.Stream.Reader.{Reader, Gives, IsBounded, fill, fill_loop}
use odf_crypto.Stream.Inflate.{
  Progress, finished, has_more_output, needs_more_input, refused, Decompressor, fresh, refill,
  tap_input, conclude, decompress_turn, step, await, inflate_read,
}
use odf_crypto.Stream.Inflate.Turns.{Documented, Inflater, IsSound, step-Stepped}
use odf_crypto.Stream.Sealing.Sealed.{Appends}
use odf_crypto.Stream.Inflate.Exact.{inflates, fresh-IsSound, inflate_read-Released}

module _ (crate : Decompressor) (reader : Reader) (sink : Sink) where
  abbrev R : Type 0
  R = Inflater crate reader sink

  -- The turns that are still to come without output, at most.
  abbrev to_go : R → ℕ
  to_go r =
      if r.src_done
      then 1
      else if is_empty r.input
      then 2 + reader.bound r.src
      else 3 + reader.bound r.src

  -- Where a conclusion neither ends the stream nor has output, the input is used up, and more is to
  -- be read.
  conclude-idle :
      (status : Progress) (r next : R)
      → (status ≡ needs_more_input → r.input ≡ [])
      → (status ≡ has_more_output → 0 < r.pending_len)
      → conclude crate reader sink status r ≡ ok next
      → next.pending_len ≡ 0
      → next.is_done ≡ false
      → (next ≡ r) × (r.input ≡ []) × (r.src_done ≡ false)
  unfolding conclude
  conclude-idle finished r next used written h idle goes =
      let (exact, last) = guard-ok (not (r.produced == r.expected)) _ _ h in
      absurd (cc (ap (λ (q : R). q.is_done) (ok-injective last)))
  conclude-idle has_more_output r next used written h idle goes =
      let same = ap (λ (q : R). q.pending_len) (ok-injective h) in
      absurd (omega (arith, written refl, same, idle))
  conclude-idle needs_more_input r next used written h idle goes =
      let (busy, last) = guard-ok (r.src_done && is_empty r.input && (r.pending_len == 0)) _ _ h in
      let same = ap (λ (q : R). q.pending_len) (ok-injective last) in
      (
        sym (ok-injective last),
        used refl,
        reading r.src_done r.input r.pending_len (used refl) (same ∙ idle) busy,
      )
    where
      reading :
          (b : Bool) (input : Bytes) (n : ℕ)
          → input ≡ []
          → n ≡ 0
          → b && is_empty input && (n == 0) ≡ false
          → b ≡ false
      reading b input n e1 e2 h = let g = rw (e1, e2) at h in ground arith
  conclude-idle (refused text) r next used written h idle goes = absurd (cc)

  drop-used : (input : Bytes) (n : ℕ) → n ≡ length input → drop n input ≡ []
  drop-used input n e = rw e (all_of input)
    where
      all_of : (xs : Bytes) → drop (length xs) xs ≡ []
      all_of [] = refl
      all_of (x ∷ xs) = all_of xs

  module _ (documented : Documented crate) (bounded : IsBounded reader) where
    decompress_turn-idle :
        (r next : R)
        → IsSound crate reader sink r
        → decompress_turn crate reader sink r ≡ ok next
        → next.pending_len ≡ 0
        → next.is_done ≡ false
        → (next.input ≡ []) × (next.src_done ≡ false) × (r.src_done ≡ false) × (next.src ≡ r.src)
    unfolding decompress_turn
    decompress_turn-idle r next sound h idle goes =
        let call = crate.decompress r.dec r.input r.window r.out_pos (not r.src_done) in
        let (tap, h1, tapped) =
          >>=-ok (tap_input crate reader sink r.tap call.1 (take call.1 r.input)) _ h in
        let (in_limit, h2) = guard-ok (ltb r.limit (r.produced + call.2)) _ _ h1 in
        let (in_expected, h3) = guard-ok (ltb r.expected (r.produced + call.2)) _ _ h2 in
        let (same, used, reading) =
          conclude-idle call.0 _ next
            (λ e.
              drop-used r.input call.1 (documented.used_up r.dec r.input r.window r.out_pos _ e))
            (λ e.
              documented.has_written r.dec r.input r.window r.out_pos _ sound.window_len
                sound.in_window e)
            h3 idle goes in
        (
          ap (λ (q : R). q.input) same ∙ used,
          ap (λ (q : R). q.src_done) same ∙ reading,
          reading,
          ap (λ (q : R). q.src) same,
        )

    fill_loop-bounded :
        (fuel n : ℕ) (s next : reader.State) (got : Bytes)
        → fill_loop reader fuel n s ≡ ok (got, next)
        → length got + reader.bound next ≤ reader.bound s
    unfolding fill_loop
    fill_loop-bounded zero n s next got h =
        subst (λ (q : Bytes × reader.State). length q.0 + reader.bound q.1 ≤ reader.bound s)
          (ok-injective h) (omega arith)
    fill_loop-bounded (suc fuel) zero s next got h =
        subst (λ (q : Bytes × reader.State). length q.0 + reader.bound q.1 ≤ reader.bound s)
          (ok-injective h) (omega arith)
    fill_loop-bounded (suc fuel) (suc n) s next got h =
        let (first, more, e) = >>=-ok (reader.read (suc n) s) _ h in
        let here = bounded.shrinks (suc n) s first.1 first.0 e in
        elim (Bool-cases (is_empty first.0)) [
          | inl empty ↦
              let g = rw empty at more in
              subst (λ (q : Bytes × reader.State). length q.0 + reader.bound q.1 ≤ reader.bound s)
                (ok-injective g) (omega (arith, here))
          | inr some_got ↦
              let g = rw some_got at more in
              let (later, last, e2) =
                >>=-ok (fill_loop reader fuel (suc n - length first.0) first.1) _ g in
              let there =
                fill_loop-bounded fuel (suc n - length first.0) first.1 later.1 later.0 e2 in
              subst (λ (q : Bytes × reader.State). length q.0 + reader.bound q.1 ≤ reader.bound s)
                (ok-injective last) (omega (arith, here, there, length-append first.0 later.0))
        ]

    -- What the first part of a step leaves for it.
    refill-to_go :
        (r filled : R)
        → refill crate reader sink r ≡ ok filled
        → IsSound crate reader sink r
        → IsSound crate reader sink filled
          × (filled.src_done ≡ false → 2 + reader.bound filled.src < to_go r)
    unfolding refill fill
    refill-to_go r filled h sound = elim (Bool-cases (is_empty r.input && not r.src_done)) [
      | inl wants ↦
          let g = rw wants at h in
          let (got, last, e) = >>=-ok (fill_loop reader chunk chunk r.src) _ g in
          let fewer = fill_loop-bounded chunk chunk r.src got.1 got.0 e in
          subst
            (λ (q : R).
              IsSound crate reader sink q × (q.src_done ≡ false → 2 + reader.bound q.src < to_go r))
            (ok-injective last)
            (
              record {
                within_limit = sound.within_limit;
                within_expected = sound.within_expected;
                window_len = sound.window_len;
                in_window = sound.in_window;
                span = sound.span;
                ended = sound.ended;
              },
              λ reading. ground (arith, fewer),
            )
      | inr busy ↦
          let g = rw busy at h in
          subst
            (λ (q : R).
              IsSound crate reader sink q × (q.src_done ≡ false → 2 + reader.bound q.src < to_go r))
            (ok-injective g) (sound, λ reading. ground arith)
    ]

    -- A step without output brings the end nearer.
    step-to_go :
        (r next : R)
        → IsSound crate reader sink r
        → step crate reader sink r ≡ ok next
        → next.pending_len ≡ 0
        → next.is_done ≡ false
        → to_go next < to_go r
    unfolding step
    step-to_go r next sound h idle goes =
        let (filled, turns, e) = >>=-ok (refill crate reader sink r) _ h in
        let (still, fewer) = refill-to_go r filled e sound in
        let (used, reading, was_reading, same_src) =
          decompress_turn-idle filled next still turns idle goes in
        let bound = ap reader.bound same_src in
        rw (reading, used) (omega (arith, fewer was_reading, bound))

    module _ (reads : (n : ℕ) (s : reader.State) → Refuses HasEnded (reader.read n s))
        (taps : (s : sink.State) (b : Bytes) → Refuses HasEnded (sink.write_all s b)) where
      conclude-HasEnded :
          (status : Progress) (r : R) → Refuses HasEnded (conclude crate reader sink status r)
      unfolding conclude
      conclude-HasEnded finished r =
          Refuses-guard HasEnded (not (r.produced == r.expected)) _ _ (λ e. λ s. cc) tt
      conclude-HasEnded has_more_output r = tt
      conclude-HasEnded needs_more_input r =
          Refuses-guard HasEnded (r.src_done && is_empty r.input && (r.pending_len == 0)) _ _
            (λ e. λ s. cc) tt
      conclude-HasEnded (refused text) r = λ s. cc

      step-HasEnded : (r : R) → Refuses HasEnded (step crate reader sink r)
      unfolding step refill decompress_turn tap_input
      step-HasEnded r =
          Refuses->>= HasEnded (refill crate reader sink r) _
            (elim (Bool-cases (is_empty r.input && not r.src_done)) [
              | inl wants ↦ rw wants (
                  Refuses->>= HasEnded (fill reader chunk r.src) _
                    (fill-HasEnded reader reads chunk r.src) (λ got e. tt))
              | inr busy ↦ rw busy tt
            ])
            (λ filled e.
              let call =
                crate.decompress filled.dec filled.input filled.window filled.out_pos
                  (not filled.src_done) in
              Refuses->>= HasEnded
                (tap_input crate reader sink filled.tap call.1 (take call.1 filled.input)) _
                (elim (Bool-cases (call.1 == 0)) [
                  | inl none ↦ rw none tt
                  | inr used ↦ rw used (taps filled.tap (take call.1 filled.input))
                ])
                (λ tap e2.
                  Refuses-guard HasEnded (ltb filled.limit (filled.produced + call.2)) _ _
                    (λ e3. λ s. cc)
                    (Refuses-guard HasEnded (ltb filled.expected (filled.produced + call.2)) _ _
                      (λ e3. λ s. cc) (conclude-HasEnded call.0 _))))

      module _ (held : sink.State → Bytes) (appends : Appends sink held)
          (rest : reader.State → Bytes) (gives : Gives reader rest) where
        await-HasEnded :
            (fuel : ℕ) (r : R)
            → IsSound crate reader sink r
            → (r.pending_len ≡ 0 → r.is_done ≡ false → to_go r < fuel)
            → 0 < fuel
            → Refuses HasEnded (await crate reader sink fuel r)
        unfolding await
        await-HasEnded zero r sound enough some_fuel = absurd (omega (arith, some_fuel))
        await-HasEnded (suc fuel) r sound enough some_fuel =
            elim (Bool-cases (not (r.pending_len == 0) || r.is_done)) [
              | inl stays ↦ rw (await, stays) tt
              | inr goes ↦
                  let idle : r.pending_len ≡ 0 = ground arith in
                  let going : r.is_done ≡ false = ground arith in
                  let room = enough idle going in
                  rw (await, goes)
                    (Refuses->>= HasEnded (step crate reader sink r) _ (step-HasEnded r) (λ next e.
                      let s =
                        step-Stepped crate reader sink documented held appends rest gives r next
                          sound e in
                      await-HasEnded fuel next s.sound
                        (λ i g. omega (arith, room, step-to_go r next sound e i g))
                        (ground (arith, room))))
            ]

        inflate_read-HasEnded :
            (n : ℕ) (r : R)
            → IsSound crate reader sink r
            → Refuses HasEnded (inflate_read crate reader sink n r)
        unfolding inflate_read
        inflate_read-HasEnded n r sound =
            Refuses->>= HasEnded (await crate reader sink (reader.bound r.src + 4) r) _
              (await-HasEnded (reader.bound r.src + 4) r sound
                (λ i g. few r.src_done (is_empty r.input) (reader.bound r.src)) (omega arith))
              (λ ready e. tt)
          where
            few : (b c : Bool) (n : ℕ) → (if b then 1 else if c then 2 + n else 3 + n) < n + 4
            few b c n = ground arith

        -- Reads into buffers of any sizes from a new reader all come to an end, each with bytes or
        -- with an error of the reader, the tap or the data; it is assumed that the reader and the
        -- tap end, and what they and the decompressor's crate document.
        pub inflates-HasEnded :
            (src : reader.State) (expected limit : ℕ) (tap : sink.State) (sizes : List ℕ)
            → Refuses HasEnded
                (inflates crate reader sink sizes (fresh crate reader sink src expected limit tap))
        inflates-HasEnded src expected limit tap sizes =
            from sizes (fresh crate reader sink src expected limit tap)
              (fresh-IsSound crate reader sink src expected limit tap)
          where
            from :
                (sizes : List ℕ) (r : R)
                → IsSound crate reader sink r
                → Refuses HasEnded (inflates crate reader sink sizes r)
            from [] r sound = tt
            from (n ∷ sizes) r sound =
                Refuses->>= HasEnded (inflate_read crate reader sink n r) _
                  (inflate_read-HasEnded n r sound)
                  (λ first e.
                    let t =
                      inflate_read-Released crate reader sink documented held appends rest gives n r
                        first.1 first.0 sound e in
                    Refuses->>= HasEnded (inflates crate reader sink sizes first.1) _
                      (from sizes first.1 (t.0).sound) (λ more e2. tt))
