-- ===== src/Stream/Deflate/Ends.antt =====
-- src/stream.rs: the loop of `pump` ends.
use odf_crypto.Prelude.{
  ℕ, zero, suc, ◌+◌, ◌≤◌, ◌<◌, Bool, true, false, not, ◌&&◌, ◌≡◌, ◌≢◌, refl, sym, ap, ◌∙◌, subst,
  arith, Bytes, codes, ltb, ◌==◌, if◌then◌else◌, is_empty, Bool-cases, ◌⊎◌, inl, inr, length, drop,
  Result, ok, err, Refuses, Refuses->>=,
}
use odf_crypto.Stream.Sink.{Fault, StreamError, fault, deflate, still_running, Sink}
use odf_crypto.Stream.Gcm.{chunk}
use odf_crypto.Stream.Deflate.{
  Compressor, is_finishing, Flush, finishing, Status, okay, done, refused, Output, turn_ends,
  pump_loop, pump,
}

-- The error is one of the code.
abbrev pub HasEnded : StreamError → Type 0
HasEnded e = e ≢ still_running

-- The call leaves input, fills the buffer, or is to finish the stream.
abbrev pub HasMore : Bytes → Flush → ℕ → ℕ → Type 0
HasMore input flush used made =
    (is_empty (drop used input) ≡ false) ⊎ (chunk ≤ made) ⊎ (flush ≡ finishing)

-- What the compressor's crate documents: a call that is fine uses input or makes output, if it is to
-- finish the stream, and such calls run out while each leaves input, fills the buffer or is to finish
-- the stream. Of a call that does none of these, as a flush without input whose marker is short,
-- nothing is said: it may make output each time.
pub record Settles (miniz : Compressor) : Type 0 where
  pub some_rounds :
      (c : miniz.State) (input : Bytes) (flush : Flush) → 1 ≤ miniz.rounds c input flush
  pub fewer_rounds :
      (c : miniz.State) (input : Bytes) (flush : Flush)
      → (miniz.compress c input chunk flush).0 ≡ okay
      → 0 < (miniz.compress c input chunk flush).1 + length (miniz.compress c input chunk flush).2
      → HasMore input flush
          (miniz.compress c input chunk flush).1
          (length (miniz.compress c input chunk flush).2)
      → miniz.rounds
          (miniz.compress c input chunk flush).3
          (drop (miniz.compress c input chunk flush).1 input)
          flush
        < miniz.rounds c input flush
  pub finishes :
      (c : miniz.State) (input : Bytes)
      → (miniz.compress c input chunk finishing).0 ≡ okay
      → 0
        < (miniz.compress c input chunk finishing).1
          + length (miniz.compress c input chunk finishing).2

-- Where the loop goes on, the call was fine, made progress, and left something to do.
turn_ends-goes_on :
    (status : Status) (flush : Flush) (is_used_up : Bool) (used made : ℕ)
    → (flush ≡ finishing → status ≡ okay → 0 < used + made)
    → turn_ends status flush is_used_up used made ≡ ok false
    → (status ≡ okay)
      × (0 < used + made)
      × ((is_used_up ≡ false) ⊎ (chunk ≤ made) ⊎ (flush ≡ finishing))
unfolding turn_ends
turn_ends-goes_on done flush is_used_up used made h e = absurd (cc)
turn_ends-goes_on (refused text) flush is_used_up used made h e = absurd (cc)
turn_ends-goes_on okay finishing is_used_up used made h e = (refl, h refl refl, inr (inr refl))
turn_ends-goes_on okay Flush.no_flush is_used_up used made h e = (refl, ground arith, ground arith)
turn_ends-goes_on okay Flush.full is_used_up used made h e = (refl, ground arith, ground arith)

fault-HasEnded : (f : Fault) → HasEnded (fault f)
fault-HasEnded f = λ e. cc

if-HasEnded :
    {A : Type 0} (b : Bool) (x y : Result StreamError A)
    → Refuses HasEnded x
    → Refuses HasEnded y
    → Refuses HasEnded (if b then x else y)
if-HasEnded true x y h k = h
if-HasEnded false x y h k = k

turn_ends-HasEnded :
    (status : Status) (flush : Flush) (is_used_up : Bool) (used made : ℕ)
    → Refuses HasEnded (turn_ends status flush is_used_up used made)
unfolding turn_ends
turn_ends-HasEnded done flush is_used_up used made = tt
turn_ends-HasEnded (refused text) flush is_used_up used made = fault-HasEnded (deflate text)
turn_ends-HasEnded okay flush is_used_up used made =
    let stuck : Result StreamError Bool = err (fault (deflate (codes "no progress"))) in
    let is_stuck = used == 0 && made == 0 && not (is_finishing flush) in
    if-HasEnded (is_used_up && ltb made chunk && not (is_finishing flush)) (ok true)
      (if is_stuck then stuck else ok false) tt
      (if-HasEnded is_stuck stuck (ok false) (fault-HasEnded (deflate (codes "no progress"))) tt)

module _ (miniz : Compressor) (settles : Settles miniz) (carries_no_more : Bytes → Bool)
    (sink : Sink)
    (ends : (s : sink.State) (b : Bytes) → Refuses HasEnded (sink.write_all s b)) where
  pump_loop-HasEnded :
      (fuel : ℕ) (w : Output miniz carries_no_more sink) (input : Bytes) (flush : Flush)
      → miniz.rounds w.comp input flush ≤ fuel
      → Refuses HasEnded (pump_loop miniz carries_no_more sink fuel w input flush)
  unfolding pump_loop
  pump_loop-HasEnded zero w input flush enough =
      absurd (omega (arith, enough, settles.some_rounds w.comp input flush))
  pump_loop-HasEnded (suc fuel) w input flush enough =
      let call = miniz.compress w.comp input chunk flush in
      Refuses->>= HasEnded (sink.write_all w.dst call.2) _ (ends w.dst call.2) (λ dst e1.
        Refuses->>= HasEnded
          (turn_ends call.0 flush (is_empty (drop call.1 input)) call.1 (length call.2)) _
          (turn_ends-HasEnded call.0 flush _ _ _)
          (λ over e2. elim (Bool-cases over) [
            | inl stops ↦ rw stops tt
            | inr goes ↦
                let (fine, progress, more) =
                  turn_ends-goes_on call.0 flush (is_empty (drop call.1 input)) call.1
                    (length call.2)
                    (λ same.
                      subst
                        (λ f.
                          (miniz.compress w.comp input chunk f).0 ≡ okay
                          → 0
                            < (miniz.compress w.comp input chunk f).1
                              + length (miniz.compress w.comp input chunk f).2)
                        (sym same) (settles.finishes w.comp input))
                    (e2 ∙ ap ok goes) in
                rw goes (
                  pump_loop-HasEnded fuel (record { dst = dst; comp = call.3 }) (drop call.1 input)
                    flush
                    (omega
                      (arith, enough, settles.fewer_rounds w.comp input flush fine progress more)))
          ]))

  -- Whatever it is given, `pump` comes to an end, with its writer or with an error of the writer or
  -- the compressor; it is assumed that the writer does, and that calls of the compressor which leave
  -- input, fill the buffer or are to finish the stream run out, while a call that leaves neither may
  -- make output each time.
  pub pump-HasEnded :
      (w : Output miniz carries_no_more sink) (input : Bytes) (flush : Flush)
      → Refuses HasEnded (pump miniz carries_no_more sink w input flush)
  unfolding pump
  pump-HasEnded w input flush =
      pump_loop-HasEnded (miniz.rounds w.comp input flush) w input flush (omega arith)
