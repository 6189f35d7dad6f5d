-- ===== src/Stream/Inflate/Turns.antt =====
-- src/stream.rs: what one turn of `InflateReader` does.
use odf_crypto.Prelude.{
  ℕ, ◌+◌, ◌%◌, ◌≤◌, ◌<◌, Bool, true, not, ◌&&◌, [], ◌∷◌, ◌++◌, ◌≡◌, refl, sym, ap, ◌∙◌, subst,
  arith, Bytes, ltb, ◌==◌, is_empty, length, take, drop, take-drop, Bool-cases, inl, inr, ◌⊎◌, ok,
  guard-ok, >>=-ok, ok-injective,
}
use mathlib.Core.List.{append_assoc}
use native.Mathlib.Nat.{mod-lt}
use odf_crypto.Stream.Sink.{Sink}
use odf_crypto.Stream.Sealing.Sealed.{Appends}
use odf_crypto.Stream.Gcm.{chunk}
use odf_crypto.Stream.Reader.{Reader, Gives, fill}
use odf_crypto.Stream.Reader.Order.{fill-in_order}
use odf_crypto.Stream.Inflate.{
  inflate_window, Progress, finished, has_more_output, needs_more_input, refused, Decompressor,
  InflateReader, refill, tap_input, conclude, decompress_turn, step,
}

-- What the crate documents: it uses no more than it is given, writes into a window of 32 KiB, whose
-- size it keeps, asks for input only where it has used all of it, and for room only where it has
-- written.
pub record Documented (crate : Decompressor) : Type 0 where
  pub uses :
      (s : crate.State) (input window : Bytes) (at : ℕ) (more : Bool)
      → (crate.decompress s input window at more).1 ≤ length input
  pub fits :
      (s : crate.State) (input window : Bytes) (at : ℕ) (more : Bool)
      → length window ≡ inflate_window
      → at < inflate_window
      → at + (crate.decompress s input window at more).2 ≤ inflate_window
  pub keeps :
      (s : crate.State) (input window : Bytes) (at : ℕ) (more : Bool)
      → length (crate.decompress s input window at more).3 ≡ length window
  pub used_up :
      (s : crate.State) (input window : Bytes) (at : ℕ) (more : Bool)
      → (crate.decompress s input window at more).0 ≡ needs_more_input
      → (crate.decompress s input window at more).1 ≡ length input
  pub has_written :
      (s : crate.State) (input window : Bytes) (at : ℕ) (more : Bool)
      → length window ≡ inflate_window
      → at < inflate_window
      → (crate.decompress s input window at more).0 ≡ has_more_output
      → 0 < (crate.decompress s input window at more).2

module _ (crate : Decompressor) (reader : Reader) (sink : Sink) where
  abbrev pub Inflater : Type 0
  Inflater = InflateReader crate reader sink

  -- What holds of a reader between two turns.
  pub record IsSound (r : Inflater) : Type 0 where
    pub within_limit : r.produced ≤ r.limit
    pub within_expected : r.produced ≤ r.expected
    pub window_len : length r.window ≡ inflate_window
    pub in_window : r.out_pos < inflate_window
    pub span : r.pending + r.pending_len ≤ inflate_window
    pub ended : r.is_done ≡ true → r.produced ≡ r.expected

  pub conclude-ok :
      (status : Progress) (r next : Inflater)
      → conclude crate reader sink status r ≡ ok next
      → ((next ≡ record r { is_done = true }) × (r.produced ≡ r.expected)) ⊎ (next ≡ r)
  unfolding conclude
  conclude-ok finished r next h =
      let (exact, last) = guard-ok (not (r.produced == r.expected)) _ _ h in
      inl (sym (ok-injective last), ground arith)
  conclude-ok has_more_output r next h = inr (sym (ok-injective h))
  conclude-ok needs_more_input r next h =
      let (busy, last) = guard-ok (r.src_done && is_empty r.input && (r.pending_len == 0)) _ _ h in
      inr (sym (ok-injective last))
  conclude-ok (refused text) r next h = absurd (cc)

  module _ (documented : Documented crate) (held : sink.State → Bytes)
      (appends : Appends sink held) where
    -- What a turn makes of a reader that has nothing pending.
    pub record Turned (r next : Inflater) : Type 0 where
      pub sound : IsSound next
      pub made : next.produced ≡ r.produced + next.pending_len
      pub same_expected : next.expected ≡ r.expected
      pub same_limit : next.limit ≡ r.limit
      pub same_src : next.src ≡ r.src
      pub tapped : held next.tap ++ next.input ≡ held r.tap ++ r.input

    tap_input-appends :
        (tap next : sink.State) (consumed : ℕ) (input : Bytes)
        → tap_input crate reader sink tap consumed (take consumed input) ≡ ok next
        → held next ++ drop consumed input ≡ held tap ++ input
    unfolding tap_input
    tap_input-appends tap next consumed input h = elim (Bool-cases (consumed == 0)) [
      | inl e ↦
          let g = rw e at h in
          let none : consumed ≡ 0 = ground arith in
          ap (λ (t : sink.State). held t ++ drop consumed input) (sym (ok-injective g))
          ∙ ap (λ n. held tap ++ drop n input) none
      | inr e ↦
          let g = rw e at h in
          ap (λ b. b ++ drop consumed input) (appends tap next (take consumed input) g)
          ∙ append_assoc (held tap) (take consumed input) (drop consumed input)
          ∙ ap (λ b. held tap ++ b) (take-drop consumed input)
    ]

    ended-Turned :
        (r made : Inflater)
        → Turned r made
        → made.produced ≡ made.expected
        → Turned r (record made { is_done = true })
    ended-Turned r made t exact = record {
      sound = record {
        within_limit = t.sound.within_limit;
        within_expected = t.sound.within_expected;
        window_len = t.sound.window_len;
        in_window = t.sound.in_window;
        span = t.sound.span;
        ended = λ over. exact;
      };
      made = t.made;
      same_expected = t.same_expected;
      same_limit = t.same_limit;
      same_src = t.same_src;
      tapped = t.tapped;
    }

    pub decompress_turn-Turned :
        (r next : Inflater)
        → IsSound r
        → decompress_turn crate reader sink r ≡ ok next
        → Turned r next
    unfolding decompress_turn
    decompress_turn-Turned r next sound h =
        let call = crate.decompress r.dec r.input r.window r.out_pos (not r.src_done) in
        let (tap, h1, tapped) =
          >>=-ok (tap_input crate reader sink r.tap call.1 (take call.1 r.input)) _ h in
        let made : Inflater = record r {
          tap = tap;
          dec = call.4;
          input = drop call.1 r.input;
          window = call.3;
          out_pos = (r.out_pos + call.2) % inflate_window;
          pending = r.out_pos;
          pending_len = call.2;
          produced = r.produced + call.2;
        } in
        let (in_limit, h2) = guard-ok (ltb made.limit made.produced) _ _ h1 in
        let (in_expected, h3) = guard-ok (ltb made.expected made.produced) _ _ h2 in
        let base : Turned r made = record {
          sound = record {
            within_limit = ground arith;
            within_expected = ground arith;
            window_len = documented.keeps r.dec r.input r.window r.out_pos _ ∙ sound.window_len;
            in_window = mod-lt (r.out_pos + call.2) (omega arith);
            span =
                documented.fits r.dec r.input r.window r.out_pos (not r.src_done) sound.window_len
                  sound.in_window;
            ended = λ e. ground (arith, sound.ended e);
          };
          made = refl;
          same_expected = refl;
          same_limit = refl;
          same_src = refl;
          tapped = tap_input-appends r.tap tap call.1 r.input tapped;
        } in
        elim (conclude-ok call.0 made next h3) [
          | inl (e, exact) ↦ subst (Turned r) (sym e) (ended-Turned r made base exact)
          | inr e ↦ subst (Turned r) (sym e) base
        ]

    -- The same over the first part of `step`, with what the source still gives.
    module _ (rest : reader.State → Bytes) (gives : Gives reader rest) where
      -- The compressed bytes: those that the tap has, those read and not yet used, and those to come.
      abbrev pub compressed : Inflater → Bytes
      compressed r = held r.tap ++ (r.input ++ rest r.src)

      -- What a step makes of a reader.
      pub record Stepped (r next : Inflater) : Type 0 where
        pub sound : IsSound next
        pub made : next.produced ≡ r.produced + next.pending_len
        pub same_expected : next.expected ≡ r.expected
        pub same_limit : next.limit ≡ r.limit
        pub same_bytes : compressed next ≡ compressed r

      -- What the first part of `step` makes of a reader.
      record Refilled (r filled : Inflater) : Type 0 where
        pub sound : IsSound r → IsSound filled
        pub same_produced : filled.produced ≡ r.produced
        pub same_expected : filled.expected ≡ r.expected
        pub same_limit : filled.limit ≡ r.limit
        pub same_bytes : compressed filled ≡ compressed r

      nothing : (b : Bytes) (c : Bool) → is_empty b && c ≡ true → b ≡ []
      nothing [] c e = refl
      nothing (x ∷ b) c e = absurd (cc)

      refill-Refilled :
          (r filled : Inflater) → refill crate reader sink r ≡ ok filled → Refilled r filled
      unfolding refill
      refill-Refilled r filled h = elim (Bool-cases (is_empty r.input && not r.src_done)) [
        | inl wants ↦
            let g = rw wants at h in
            let (got, last, e) = >>=-ok (fill reader chunk r.src) _ g in
            subst (Refilled r) (ok-injective last) (record {
              sound = λ s. record {
                within_limit = s.within_limit;
                within_expected = s.within_expected;
                window_len = s.window_len;
                in_window = s.in_window;
                span = s.span;
                ended = s.ended;
              };
              same_produced = refl;
              same_expected = refl;
              same_limit = refl;
              same_bytes =
                  ap (λ b. held r.tap ++ b)
                    (sym (fill-in_order reader rest gives chunk r.src got.1 got.0 e))
                  ∙ ap (λ b. held r.tap ++ (b ++ rest r.src))
                      (sym (nothing r.input (not r.src_done) wants));
            })
        | inr busy ↦
            let g = rw busy at h in
            subst (Refilled r) (ok-injective g) (record {
              sound = λ s. s;
              same_produced = refl;
              same_expected = refl;
              same_limit = refl;
              same_bytes = refl;
            })
      ]

      pub step-Stepped :
          (r next : Inflater) → IsSound r → step crate reader sink r ≡ ok next → Stepped r next
      unfolding step
      step-Stepped r next sound h =
          let (filled, turns, e) = >>=-ok (refill crate reader sink r) _ h in
          let f = refill-Refilled r filled e in
          let t = decompress_turn-Turned filled next (f.sound sound) turns in
          record {
            sound = t.sound;
            made = t.made ∙ ap (λ n. n + next.pending_len) f.same_produced;
            same_expected = t.same_expected ∙ f.same_expected;
            same_limit = t.same_limit ∙ f.same_limit;
            same_bytes =
                sym (append_assoc (held next.tap) next.input (rest next.src))
                ∙ ap (λ b. b ++ rest next.src) t.tapped
                ∙ ap (λ (s : reader.State). (held filled.tap ++ filled.input) ++ rest s) t.same_src
                ∙ append_assoc (held filled.tap) filled.input (rest filled.src)
                ∙ f.same_bytes;
          }
