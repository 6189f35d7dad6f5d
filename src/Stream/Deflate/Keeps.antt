-- ===== src/Stream/Deflate/Keeps.antt =====
-- src/stream.rs: what every write keeps of the writer behind a `DeflateWriter`, each of its
-- operations keeps.
use odf_crypto.Prelude.{
  ℕ, zero, suc, ◌+◌, ◌-◌, Bool, true, false, Option, none, some, List, [], ◌∷◌, ◌++◌, Bytes, leb,
  ltb, if◌then◌else◌, is_empty, length, take, drop, Result, ok, err, ◌>>=◌, Returns,
}
use odf_crypto.Stream.Sink.{Sink, chunk_buffer}
use odf_crypto.Stream.Gcm.{chunk}
use odf_crypto.Stream.Deflate.{
  Compressor, Flush, no_flush, full, finishing, Output, Held, DeflateWriter, blocks, turn_ends,
  new_deflater, adaptive, pump_loop, pump, store, flush_before, release_stored, release, gather,
  write, finish,
}

pub Returns->>= :
    {E A B : Type 0} (P : A → Type 0) (Q : B → Type 0) (first : Result E A) (next : A → Result E B)
    → Returns P first
    → ((a : A) → P a → Returns Q (next a))
    → Returns Q (first >>= next)
Returns->>= P Q (ok a) next h k = k a h
Returns->>= P Q (err e) next h k = tt

pub Returns-after :
    {E A B : Type 0} (Q : B → Type 0) (first : Result E A) (next : A → Result E B)
    → ((a : A) → Returns Q (next a))
    → Returns Q (first >>= next)
Returns-after Q (ok a) next k = k a
Returns-after Q (err e) next k = tt

pub Returns-if :
    {E B : Type 0} (Q : B → Type 0) (test : Bool) (first second : Result E B)
    → Returns Q first
    → Returns Q second
    → Returns Q (if test then first else second)
Returns-if Q true first second h k = h
Returns-if Q false first second h k = k

pub Returns-elim :
    {E B : Type 0} (Q : B → Type 0) (test : Bool) (first second : Result E B)
    → Returns Q first
    → Returns Q second
    → Returns Q (elim test [ true ↦ first | false ↦ second ])
Returns-elim Q true first second h k = h
Returns-elim Q false first second h k = k

module _ (miniz : Compressor) (carries_no_more : Bytes → Bool) (sink : Sink)
    (P : sink.State → Type 0)
    (keeps : (s : sink.State) (bytes : Bytes) → P s → Returns P (sink.write_all s bytes)) where
  abbrev Out : Type 0
  Out = Output miniz carries_no_more sink

  abbrev Of : Out → Type 0
  Of w = P w.dst

  abbrev OfBoth : Out × Held miniz carries_no_more sink → Type 0
  OfBoth r = P r.0.dst

  -- The writer behind a deflater.
  abbrev pub Behind : DeflateWriter miniz carries_no_more sink → Type 0
  Behind w = P w.output.dst

  pump_loop-keeps :
      (fuel : ℕ) (w : Out) (input : Bytes) (flush : Flush)
      → Of w
      → Returns Of (pump_loop miniz carries_no_more sink fuel w input flush)
  unfolding pump_loop
  pump_loop-keeps zero w input flush p = tt
  pump_loop-keeps (suc fuel) w input flush p =
      Returns->>= P Of (sink.write_all w.dst _) _ (keeps w.dst _ p) (λ dst q.
        Returns-after Of (turn_ends _ flush _ _ _) _
          (λ ends. Returns-elim Of ends (ok _) _ q (pump_loop-keeps fuel _ _ flush q)))

  pump-keeps :
      (w : Out) (input : Bytes) (flush : Flush)
      → Of w
      → Returns Of (pump miniz carries_no_more sink w input flush)
  unfolding pump
  pump-keeps w input flush p = pump_loop-keeps (miniz.rounds w.comp input flush) w input flush p

  store-keeps :
      (dst : sink.State) (parts : List Bytes)
      → P dst
      → Returns P (store miniz carries_no_more sink dst parts)
  unfolding store
  store-keeps dst [] p = p
  store-keeps dst (block ∷ rest) p =
      Returns->>= P P (sink.write_all dst _) _ (keeps dst _ p) (λ headed q.
        Returns->>= P P (sink.write_all headed block) _ (keeps headed block q)
          (λ next r. store-keeps next rest r))

  flush_before-keeps :
      (w : Out) (compressing : Bool)
      → Of w
      → Returns Of (flush_before miniz carries_no_more sink w compressing)
  unfolding flush_before
  flush_before-keeps w true p = pump-keeps w [] full p
  flush_before-keeps w false p = p

  release-keeps :
      (w : Out) (held : Held miniz carries_no_more sink)
      → Of w
      → Returns OfBoth (release miniz carries_no_more sink w held)
  unfolding release release_stored
  release-keeps w held p = Returns-if OfBoth (is_empty held.buf) (ok (w, held)) _ p (
      Returns-if OfBoth (carries_no_more held.buf)
        (flush_before miniz carries_no_more sink w held.compressing >>= λ flushed.
          store miniz carries_no_more sink flushed.dst (blocks (length held.buf) held.buf)
          >>= λ dst. ok (record flushed { dst = dst }, record { buf = []; compressing = false }))
        _
        (Returns->>= Of OfBoth (flush_before miniz carries_no_more sink w held.compressing) _
          (flush_before-keeps w held.compressing p)
          (λ flushed q.
            Returns->>= P OfBoth (store miniz carries_no_more sink flushed.dst _) _
              (store-keeps flushed.dst _ q) (λ dst r. r)))
        (Returns->>= Of OfBoth (pump miniz carries_no_more sink w held.buf no_flush) _
          (pump-keeps w held.buf no_flush p) (λ next q. q)))

  gather-keeps :
      (fuel : ℕ) (w : Out) (held : Held miniz carries_no_more sink) (rest : Bytes)
      → Of w
      → Returns OfBoth (gather miniz carries_no_more sink fuel w held rest)
  unfolding gather
  gather-keeps zero w held rest p = tt
  gather-keeps (suc fuel) w held rest p =
      let room = chunk - length held.buf in
      let count = if leb room (length rest) then room else length rest in
      let filled : Held miniz carries_no_more sink = record held {
        buf = held.buf ++ take count rest;
      } in
      Returns-elim OfBoth (ltb (length filled.buf) chunk) (ok (w, filled)) _ p (
        Returns->>= OfBoth OfBoth (release miniz carries_no_more sink w filled) _
          (release-keeps w filled p)
          (λ next q. gather-keeps fuel next.0 next.1 (drop count rest) q))

  pub write-keeps :
      (output : Out) (consumed : ℕ) (held : Option (Held miniz carries_no_more sink)) (buf : Bytes)
      → Of output
      → Returns Behind (
          write miniz carries_no_more sink
            (record { output = output; consumed = consumed; held = held })
            buf)
  unfolding write
  write-keeps output consumed none buf p =
      Returns->>= Of Behind (pump miniz carries_no_more sink output buf no_flush) _
        (pump-keeps output buf no_flush p) (λ next q. q)
  write-keeps output consumed (some held) buf p =
      Returns->>= OfBoth Behind (gather miniz carries_no_more sink (length buf + 2) output held buf)
        _ (gather-keeps (length buf + 2) output held buf p) (λ next q. q)

  last-keeps :
      (output : Out)
      → Of output
      → Returns P (pump miniz carries_no_more sink output [] finishing >>= λ last. ok last.dst)
  last-keeps output p =
      Returns->>= Of P (pump miniz carries_no_more sink output [] finishing) _
        (pump-keeps output [] finishing p) (λ last q. q)

  pub finish-keeps :
      (output : Out) (consumed : ℕ) (held : Option (Held miniz carries_no_more sink))
      → Of output
      → Returns P (
          finish miniz carries_no_more sink
            (record { output = output; consumed = consumed; held = held }))
  unfolding finish
  finish-keeps output consumed none p = last-keeps output p
  finish-keeps output consumed (some held) p =
      elim (release miniz carries_no_more sink output held)
          as (λ r.
            Returns OfBoth r
            → Returns P (
                (r >>= λ pair. ok pair.0) >>= λ released.
                pump miniz carries_no_more sink released [] finishing >>= λ last. ok last.dst)) [
                  | ok r ↦ λ q. last-keeps r.0 q
                  | err e ↦ λ q. tt
                ]
        (release-keeps output held p)

  pub adaptive-keeps :
      (can_reserve : ℕ → Bool) (dst : sink.State)
      → P dst
      → Returns Behind (adaptive miniz carries_no_more sink can_reserve dst)
  unfolding adaptive new_deflater
  adaptive-keeps can_reserve dst p =
      Returns->>= Behind Behind (new_deflater miniz carries_no_more sink can_reserve dst) _
        (Returns-after Behind (chunk_buffer can_reserve chunk) _ (λ out. p))
        (λ w q. Returns-after Behind (chunk_buffer can_reserve chunk) _ (λ buf. q))
