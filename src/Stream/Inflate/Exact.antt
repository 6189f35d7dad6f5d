-- ===== src/Stream/Inflate/Exact.antt =====
-- src/stream.rs: how much an `InflateReader` releases.
use odf_crypto.Prelude.{
  ℕ, zero, suc, ◌+◌, ◌≤◌, ◌<◌, true, not, ◌||◌, List, [], ◌∷◌, ◌++◌, ◌≡◌, refl, ◌∙◌, subst, arith,
  Bytes, leb, ◌==◌, if◌then◌else◌, length, take, drop, length-take, length-drop, length-append,
  length-zeros, Bool-cases, inl, inr, Result, ok, ◌>>=◌, >>=-ok, ok-injective,
}
use odf_crypto.Stream.Sink.{StreamError, Sink}
use odf_crypto.Stream.Sealing.Sealed.{Appends}
use odf_crypto.Stream.Reader.{Reader, Gives}
use odf_crypto.Stream.Inflate.{inflate_window, Decompressor, fresh, step, await, inflate_read}
use odf_crypto.Stream.Inflate.Turns.{Documented, Inflater, IsSound, compressed, step-Stepped}

module _ (crate : Decompressor) (reader : Reader) (sink : Sink) where
  pub fresh-IsSound :
      (src : reader.State) (expected limit : ℕ) (tap : sink.State)
      → IsSound crate reader sink (fresh crate reader sink src expected limit tap)
  fresh-IsSound src expected limit tap = record {
    within_limit = omega arith;
    within_expected = omega arith;
    window_len = length-zeros inflate_window;
    in_window = omega arith;
    span = omega arith;
    ended = λ e. cc;
  }

  -- Reads into buffers of these sizes: what they gave, and the reader.
  abbrev pub inflates :
      List ℕ → Inflater crate reader sink → Result StreamError (Bytes × Inflater crate reader sink)
  inflates [] r = ok ([], r)
  inflates (n ∷ sizes) r = inflate_read crate reader sink n r >>= λ first.
      inflates sizes first.1 >>= λ rest. ok (first.0 ++ rest.0, rest.1)

  module _ (documented : Documented crate) (held : sink.State → Bytes) (appends : Appends sink held)
      (rest : reader.State → Bytes) (gives : Gives reader rest) where
    abbrev Compressed : Inflater crate reader sink → Bytes
    Compressed = compressed crate reader sink documented held appends rest gives

    -- Between the two readers, so many bytes were released.
    pub record Released (r next : Inflater crate reader sink) (count : ℕ) : Type 0 where
      pub sound : IsSound crate reader sink next
      pub counted : r.pending_len + next.produced ≡ r.produced + (next.pending_len + count)
      pub same_expected : next.expected ≡ r.expected
      pub same_limit : next.limit ≡ r.limit
      pub same_bytes : Compressed next ≡ Compressed r

    await-Released :
        (fuel : ℕ) (r ready : Inflater crate reader sink)
        → IsSound crate reader sink r
        → await crate reader sink fuel r ≡ ok ready
        → Released r ready 0 × (ready.pending_len ≡ 0 → ready.is_done ≡ true)
    unfolding await
    await-Released zero r ready sound h = absurd (cc)
    await-Released (suc fuel) r ready sound h =
        elim (Bool-cases (not (r.pending_len == 0) || r.is_done)) [
          | inl stays ↦
              let g = rw (await, stays) at h in
              subst
                (λ (q : Inflater crate reader sink).
                  Released r q 0 × (q.pending_len ≡ 0 → q.is_done ≡ true))
                (ok-injective g)
                (
                  record {
                    sound = sound;
                    counted = omega arith;
                    same_expected = refl;
                    same_limit = refl;
                    same_bytes = refl;
                  },
                  λ e. ground arith,
                )
          | inr goes ↦
              let g = rw (await, goes) at h in
              let (next, later, e) = >>=-ok (step crate reader sink r) _ g in
              let s =
                step-Stepped crate reader sink documented held appends rest gives r next sound e in
              let (t, over) = await-Released fuel next ready s.sound later in
              let idle : r.pending_len ≡ 0 = ground arith in
              (
                record {
                  sound = t.sound;
                  counted = omega (arith, t.counted, s.made, idle);
                  same_expected = t.same_expected ∙ s.same_expected;
                  same_limit = t.same_limit ∙ s.same_limit;
                  same_bytes = t.same_bytes ∙ s.same_bytes;
                },
                over,
              )
        ]

    length-released :
        (count : ℕ) (r : Inflater crate reader sink)
        → IsSound crate reader sink r
        → count ≤ r.pending_len
        → length (take count (drop r.pending r.window)) ≡ count
    length-released count r sound h =
        let d = length-drop r.pending r.window in
        length-take count (drop r.pending r.window)
          (omega (arith, h, d, sound.window_len, sound.span))

    pub inflate_read-Released :
        (n : ℕ) (r next : Inflater crate reader sink) (out : Bytes)
        → IsSound crate reader sink r
        → inflate_read crate reader sink n r ≡ ok (out, next)
        → Released r next (length out)
          × (0 < n → length out ≡ 0 → (next.produced ≡ next.expected) × (next.pending_len ≡ 0))
    unfolding inflate_read
    inflate_read-Released n r next out sound h =
        let (ready, last, e) = >>=-ok (await crate reader sink (reader.bound r.src + 4) r) _ h in
        let (t, over) = await-Released (reader.bound r.src + 4) r ready sound e in
        let count = if leb ready.pending_len n then ready.pending_len else n in
        let few : count ≤ ready.pending_len = ground arith in
        let l = length-released count ready t.sound few in
        subst
          (λ (q : Bytes × Inflater crate reader sink).
            Released r q.1 (length q.0)
            × (0 < n → length q.0 ≡ 0 → (q.1.produced ≡ q.1.expected) × (q.1.pending_len ≡ 0)))
          (ok-injective last)
          (
            record {
              sound = record {
                within_limit = t.sound.within_limit;
                within_expected = t.sound.within_expected;
                window_len = t.sound.window_len;
                in_window = t.sound.in_window;
                span = omega (arith, t.sound.span, few);
                ended = t.sound.ended;
              };
              counted = omega (arith, t.counted, few, l);
              same_expected = t.same_expected;
              same_limit = t.same_limit;
              same_bytes = t.same_bytes;
            },
            λ room none.
                let idle : ready.pending_len ≡ 0 = ground (arith, l, none, room) in
                (t.sound.ended (over idle), omega (arith, idle)),
          )

    inflates-Released :
        (sizes : List ℕ) (r next : Inflater crate reader sink) (out : Bytes)
        → IsSound crate reader sink r
        → inflates sizes r ≡ ok (out, next)
        → Released r next (length out)
    inflates-Released [] r next out sound h =
        subst (λ (q : Bytes × Inflater crate reader sink). Released r q.1 (length q.0))
          (ok-injective h)
          (record {
            sound = sound;
            counted = omega arith;
            same_expected = refl;
            same_limit = refl;
            same_bytes = refl;
          })
    inflates-Released (n ∷ sizes) r next out sound h =
        let (first, more, e) = >>=-ok (inflate_read crate reader sink n r) _ h in
        let (later, last, e2) = >>=-ok (inflates sizes first.1) _ more in
        let a = (inflate_read-Released n r first.1 first.0 sound e).0 in
        let b = inflates-Released sizes first.1 later.1 later.0 a.sound e2 in
        subst (λ (q : Bytes × Inflater crate reader sink). Released r q.1 (length q.0))
          (ok-injective last)
          (record {
            sound = b.sound;
            counted = omega (arith, a.counted, b.counted, length-append first.0 later.0);
            same_expected = b.same_expected ∙ a.same_expected;
            same_limit = b.same_limit ∙ a.same_limit;
            same_bytes = b.same_bytes ∙ a.same_bytes;
          })

    -- Reads into buffers of any sizes that succeed release no more than the limit and no more than
    -- the expected bytes, and where a read into a buffer with room then gives nothing, exactly the
    -- expected bytes; the tap has a beginning of the compressed bytes, in their order, and behind it
    -- come those that are not used yet; it is assumed that the decompressor, the reader and the tap
    -- do what they document.
    pub inflates-exact :
        (src : reader.State) (expected limit : ℕ) (tap : sink.State) (sizes : List ℕ) (out : Bytes)
        (r : Inflater crate reader sink)
        → inflates sizes (fresh crate reader sink src expected limit tap) ≡ ok (out, r)
        → (length out ≤ limit)
          × (length out ≤ expected)
          × ((n : ℕ) (last : Inflater crate reader sink)
              → inflate_read crate reader sink (suc n) r ≡ ok ([], last)
              → length out ≡ expected)
          × (held r.tap ++ (r.input ++ rest r.src) ≡ held tap ++ rest src)
    inflates-exact src expected limit tap sizes out r h =
        let a =
          inflates-Released sizes (fresh crate reader sink src expected limit tap) r out
            (fresh-IsSound src expected limit tap) h in
        (
          omega (arith, a.counted, a.same_limit, a.sound.within_limit),
          omega (arith, a.counted, a.same_expected, a.sound.within_expected),
          λ n last e.
              let (b, over) = inflate_read-Released (suc n) r last [] a.sound e in
              let (ended, idle) = over (omega arith) refl in
              omega (arith, ended, idle, a.counted, b.counted, a.same_expected, b.same_expected),
          a.same_bytes,
        )
