-- ===== src/Stream/Deflate/Logged.antt =====
-- src/stream.rs: a `DeflateWriter` gives its writer the bytes that it gives one that only keeps them.
use odf_crypto.Prelude.{
  ℕ, zero, suc, ◌+◌, ◌-◌, Bool, true, false, some, List, [], ◌∷◌, ◌++◌, ◌≡◌, refl, sym, subst,
  Bytes, leb, ltb, if◌then◌else◌, is_empty, length, take, drop, Result, ok, err, ◌>>=◌, Returns,
}
use odf_crypto.Stream.Sink.{Sink, StreamError}
use odf_crypto.Stream.Gcm.{chunk}
use odf_crypto.Stream.Deflate.{
  Compressor, Flush, no_flush, full, finishing, Output, Held, DeflateWriter, blocks, turn_ends,
  pump_loop, pump, store, flush_before, release_stored, release, gather, write, finish,
  stored_header,
}

-- A writer that keeps the bytes it is given.
abbrev pub log : Sink
log = record { State = Bytes; write_all = λ s b. ok (s ++ b) }

module _ (miniz : Compressor) (carries_no_more : Bytes → Bool) where
  -- A new adaptive writer over one that keeps its bytes.
  abbrev pub new_adaptive : DeflateWriter miniz carries_no_more log
  new_adaptive = record {
    output = record { dst = []; comp = miniz.new };
    consumed = 0;
    held = some (record { buf = []; compressing = false });
  }

  -- What the deflater makes of a text that it is given at once.
  abbrev pub deflated : Bytes → Result StreamError Bytes
  deflated bytes =
      write miniz carries_no_more log new_adaptive bytes >>= λ w. finish miniz carries_no_more log w

-- Where the first succeeds the second does, with a result in the relation.
abbrev pub Follows : {E A B : Type 0} → (A → B → Type 0) → Result E A → Result E B → Type 0
Follows {B = B} R x y = Returns (λ a. (b : B) × (y ≡ ok b) × R a b) x

pub Follows->>= :
    {E A B C D : Type 0} (R : A → B → Type 0) (S : C → D → Type 0) (x : Result E A) (y : Result E B)
    (k : A → Result E C) (l : B → Result E D)
    → Follows R x y
    → ((a : A) (b : B) → R a b → Follows S (k a) (l b))
    → Follows S (x >>= k) (y >>= l)
Follows->>= R S (ok a) y k l (b, e, r) h = subst (λ y. Follows S (k a) (y >>= l)) (sym e) (h a b r)
Follows->>= R S (err e) y k l f h = tt

Follows-same :
    {E A C D : Type 0} (S : C → D → Type 0) (x : Result E A) (k : A → Result E C)
    (l : A → Result E D)
    → ((a : A) → Follows S (k a) (l a))
    → Follows S (x >>= k) (x >>= l)
Follows-same S (ok a) k l h = h a
Follows-same S (err e) k l h = tt

Follows-if :
    {E A B : Type 0} (R : A → B → Type 0) (test : Bool) (x x' : Result E A) (y y' : Result E B)
    → Follows R x y
    → Follows R x' y'
    → Follows R (if test then x else x') (if test then y else y')
Follows-if R true x x' y y' h k = h
Follows-if R false x x' y y' h k = k

Follows-elim :
    {E A B : Type 0} (R : A → B → Type 0) (test : Bool) (x x' : Result E A) (y y' : Result E B)
    → Follows R x y
    → Follows R x' y'
    → Follows R (elim test [ true ↦ x | false ↦ x' ]) (elim test [ true ↦ y | false ↦ y' ])
Follows-elim R true x x' y y' h k = h
Follows-elim R false x x' y y' h k = k

module _ (miniz : Compressor) (carries_no_more : Bytes → Bool) (sink : Sink)
    (P : sink.State → Bytes → Type 0)
    (logs : (s : sink.State) (kept bytes : Bytes)
      → P s kept
      → Returns (λ s'. P s' (kept ++ bytes)) (sink.write_all s bytes)) where
  abbrev Out : Type 0
  Out = Output miniz carries_no_more sink

  abbrev OutLog : Type 0
  OutLog = Output miniz carries_no_more log

  abbrev Same : Out → OutLog → Type 0
  Same w v = (w.comp ≡ v.comp) × P w.dst v.dst

  abbrev SameHeld : Held miniz carries_no_more sink → Held miniz carries_no_more log → Type 0
  SameHeld h g = (h.buf ≡ g.buf) × (h.compressing ≡ g.compressing)

  abbrev SameBoth :
      Out × Held miniz carries_no_more sink → OutLog × Held miniz carries_no_more log → Type 0
  SameBoth p q = Same p.0 q.0 × SameHeld p.1 q.1

  -- The two writers hold the same, and the second has the bytes that the first has given on.
  pub data SameWriter
      : DeflateWriter miniz carries_no_more sink
        → DeflateWriter miniz carries_no_more log
        → Type 0 where
    same :
        {w : Out} {v : OutLog} {h : Held miniz carries_no_more sink}
        {g : Held miniz carries_no_more log} {consumed : ℕ}
        → Same w v
        → SameHeld h g
        → SameWriter
            (record { output = w; consumed = consumed; held = some h })
            (record { output = v; consumed = consumed; held = some g })

  writes-Same :
      (s : sink.State) (kept bytes : Bytes)
      → P s kept
      → Follows P (sink.write_all s bytes) (log.write_all kept bytes)
  writes-Same s kept bytes p = with_log (sink.write_all s bytes) (logs s kept bytes p)
    where
      with_log :
          (x : Result StreamError sink.State)
          → Returns (λ s'. P s' (kept ++ bytes)) x
          → Follows {E = StreamError} P x (ok (kept ++ bytes))
      with_log (ok a) h = (kept ++ bytes, refl, h)
      with_log (err e) h = tt

  pump_loop-Same :
      (fuel : ℕ) (dst : sink.State) (kept : Bytes) (comp : miniz.State) (input : Bytes)
      (flush : Flush)
      → P dst kept
      → Follows Same
          (pump_loop miniz carries_no_more sink fuel
            (record { dst = dst; comp = comp })
            input
            flush)
          (pump_loop miniz carries_no_more log fuel
            (record { dst = kept; comp = comp })
            input
            flush)
  unfolding pump_loop
  pump_loop-Same zero dst kept comp input flush p = tt
  pump_loop-Same (suc fuel) dst kept comp input flush p =
      let call = miniz.compress comp input chunk flush in
      Follows->>= P Same (sink.write_all dst call.2) (log.write_all kept call.2) _ _
        (writes-Same dst kept call.2 p)
        (λ dst' kept' q.
          Follows-same Same
            (turn_ends call.0 flush (is_empty (drop call.1 input)) call.1 (length call.2)) _ _
            (λ ends.
              Follows-elim Same ends (ok (record { dst = dst'; comp = call.3 })) _
                (ok (record { dst = kept'; comp = call.3 })) _
                (record { dst = kept'; comp = call.3 }, refl, (refl, q))
                (pump_loop-Same fuel dst' kept' call.3 (drop call.1 input) flush q)))

  pump-Same :
      (w : Out) (v : OutLog) (input : Bytes) (flush : Flush)
      → Same w v
      → Follows Same
          (pump miniz carries_no_more sink w input flush)
          (pump miniz carries_no_more log v input flush)
  unfolding pump
  pump-Same w v input flush (e, p) =
      subst
        (λ c.
          Follows Same (pump miniz carries_no_more sink w input flush)
            (pump miniz carries_no_more log (record { dst = v.dst; comp = c }) input flush))
        e (pump_loop-Same (miniz.rounds w.comp input flush) w.dst v.dst w.comp input flush p)

  store-Same :
      (dst : sink.State) (kept : Bytes) (parts : List Bytes)
      → P dst kept
      → Follows P
          (store miniz carries_no_more sink dst parts)
          (store miniz carries_no_more log kept parts)
  unfolding store
  store-Same dst kept [] p = (kept, refl, p)
  store-Same dst kept (block ∷ rest) p =
      Follows->>= P P (sink.write_all dst (stored_header (length block)))
        (log.write_all kept (stored_header (length block))) _ _
        (writes-Same dst kept (stored_header (length block)) p)
        (λ headed kept' q.
          Follows->>= P P (sink.write_all headed block) (log.write_all kept' block) _ _
            (writes-Same headed kept' block q) (λ next kept'' r. store-Same next kept'' rest r))

  flush_before-Same :
      (w : Out) (v : OutLog) (compressing : Bool)
      → Same w v
      → Follows Same
          (flush_before miniz carries_no_more sink w compressing)
          (flush_before miniz carries_no_more log v compressing)
  unfolding flush_before
  flush_before-Same w v true s = pump-Same w v [] full s
  flush_before-Same w v false s = (v, refl, s)

  release-Same :
      (w : Out) (v : OutLog) (buf : Bytes) (compressing : Bool)
      → Same w v
      → Follows SameBoth
          (release miniz carries_no_more sink w (record { buf = buf; compressing = compressing }))
          (release miniz carries_no_more log v (record { buf = buf; compressing = compressing }))
  unfolding release release_stored
  release-Same w v buf compressing s =
      Follows-if SameBoth (is_empty buf) (ok _) _ (ok _) _ ((v, _), refl, (s, (refl, refl)))
        (Follows-if SameBoth (carries_no_more buf)
          (flush_before miniz carries_no_more sink w compressing >>= λ flushed.
            store miniz carries_no_more sink flushed.dst (blocks (length buf) buf) >>= λ dst.
            ok (record flushed { dst = dst }, record { buf = []; compressing = false }))
          _
          (flush_before miniz carries_no_more log v compressing >>= λ flushed.
            store miniz carries_no_more log flushed.dst (blocks (length buf) buf) >>= λ dst.
            ok (record flushed { dst = dst }, record { buf = []; compressing = false }))
          _
          (Follows->>= Same SameBoth (flush_before miniz carries_no_more sink w compressing)
            (flush_before miniz carries_no_more log v compressing) _ _
            (flush_before-Same w v compressing s)
            (λ flushed flushed' (e, q).
              Follows->>= P SameBoth (store miniz carries_no_more sink flushed.dst _)
                (store miniz carries_no_more log flushed'.dst _) _ _
                (store-Same flushed.dst flushed'.dst (blocks (length buf) buf) q)
                (λ dst kept r. (
                  (record flushed' { dst = kept }, record { buf = []; compressing = false }),
                  refl,
                  ((e, r), (refl, refl)),
                ))))
          (Follows->>= Same SameBoth (pump miniz carries_no_more sink w buf no_flush)
            (pump miniz carries_no_more log v buf no_flush) _ _ (pump-Same w v buf no_flush s)
            (λ next next' t.
              ((next', record { buf = []; compressing = true }), refl, (t, (refl, refl))))))

  gather-Same :
      (fuel : ℕ) (w : Out) (v : OutLog) (buf : Bytes) (compressing : Bool) (rest : Bytes)
      → Same w v
      → Follows SameBoth
          (gather miniz carries_no_more sink fuel w
            (record { buf = buf; compressing = compressing })
            rest)
          (gather miniz carries_no_more log fuel v
            (record { buf = buf; compressing = compressing })
            rest)
  unfolding gather
  gather-Same zero w v buf compressing rest s = tt
  gather-Same (suc fuel) w v buf compressing rest s =
      let room = chunk - length buf in
      let count = if leb room (length rest) then room else length rest in
      let filled = buf ++ take count rest in
      Follows-elim SameBoth (ltb (length filled) chunk) (ok _) _ (ok _) _
        ((v, _), refl, (s, (refl, refl)))
        (Follows->>= SameBoth SameBoth
          (release miniz carries_no_more sink w
            (record { buf = filled; compressing = compressing }))
          (release miniz carries_no_more log v (record { buf = filled; compressing = compressing }))
          _ _ (release-Same w v filled compressing s)
          (λ next next' t.
            subst
              (λ (b : Bytes).
                Follows SameBoth
                  (gather miniz carries_no_more sink fuel next.0 next.1 (drop count rest))
                  (gather miniz carries_no_more log fuel next'.0
                    (record { buf = b; compressing = next'.1.compressing }) (drop count rest)))
              (t.1.0)
              (subst
                (λ (c : Bool).
                  Follows SameBoth
                    (gather miniz carries_no_more sink fuel next.0 next.1 (drop count rest))
                    (gather miniz carries_no_more log fuel next'.0
                      (record { buf = next.1.buf; compressing = c }) (drop count rest)))
                (t.1.1)
                (gather-Same fuel next.0 next'.0 next.1.buf next.1.compressing (drop count rest)
                  t.0))))

  -- Held chunks that are the same may be replaced.
  at_held :
      (M : Held miniz carries_no_more log → Type 0) (h : Held miniz carries_no_more sink)
      (g : Held miniz carries_no_more log)
      → SameHeld h g
      → M (record { buf = h.buf; compressing = h.compressing })
      → M g
  at_held M h g (e, c) m =
      subst (λ (x : Bytes). M (record { buf = x; compressing = g.compressing })) e
        (subst (λ (x : Bool). M (record { buf = h.buf; compressing = x })) c m)

  pub write-SameWriter :
      (d : DeflateWriter miniz carries_no_more sink) (f : DeflateWriter miniz carries_no_more log)
      (bytes : Bytes)
      → SameWriter d f
      → Follows SameWriter
          (write miniz carries_no_more sink d bytes)
          (write miniz carries_no_more log f bytes)
  unfolding write
  write-SameWriter _ _ bytes (same {w = w} {v = v} {h = h} {g = g} {consumed = consumed} s k) =
      Follows->>= SameBoth SameWriter
        (gather miniz carries_no_more sink (length bytes + 2) w h bytes)
        (gather miniz carries_no_more log (length bytes + 2) v g bytes) _ _
        (at_held
          (λ x.
            Follows SameBoth (gather miniz carries_no_more sink (length bytes + 2) w h bytes)
              (gather miniz carries_no_more log (length bytes + 2) v x bytes))
          h g k (gather-Same (length bytes + 2) w v h.buf h.compressing bytes s))
        (λ next next' t. (_, refl, same t.0 t.1))

  pub finish-SameWriter :
      (d : DeflateWriter miniz carries_no_more sink) (f : DeflateWriter miniz carries_no_more log)
      → SameWriter d f
      → Follows P (finish miniz carries_no_more sink d) (finish miniz carries_no_more log f)
  unfolding finish
  finish-SameWriter _ _ (same {w = w} {v = v} {h = h} {g = g} s k) =
      Follows->>= Same P (release miniz carries_no_more sink w h >>= λ r. ok r.0)
        (release miniz carries_no_more log v g >>= λ r. ok r.0) _ _
        (Follows->>= SameBoth Same (release miniz carries_no_more sink w h)
          (release miniz carries_no_more log v g) _ _
          (at_held
            (λ x.
              Follows SameBoth (release miniz carries_no_more sink w h)
                (release miniz carries_no_more log v x))
            h g k (release-Same w v h.buf h.compressing s))
          (λ r r' t. (r'.0, refl, t.0)))
        (λ released released' t.
          Follows->>= Same P (pump miniz carries_no_more sink released [] finishing)
            (pump miniz carries_no_more log released' [] finishing) _ _
            (pump-Same released released' [] finishing t) (λ last last' u. (last'.dst, refl, u.1)))
