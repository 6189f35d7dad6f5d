-- ===== src/Stream/Deflate/Feed.antt =====
-- src/stream.rs: the chunks that `DeflateWriter` makes of its input, however that is cut.
use odf_crypto.Prelude.{
  ℕ, zero, suc, ◌+◌, ◌-◌, ◌≤◌, ◌<◌, Bool, true, false, [], ◌∷◌, ◌++◌, ◌≡◌, refl, sym, ap, ◌∙◌,
  subst, arith, Bytes, leb, ltb, if◌then◌else◌, is_empty, Bool-cases, inl, inr, length,
  length-append, length-take, length-drop, take, drop, take-drop, Result, Result-cases, ok, ◌>>=◌,
  ok-injective, >>=-ok, >>=-unit, >>=-same,
}
use mathlib.Core.List.{append_assoc, append-nil}
use odf_crypto.Stream.Sink.{StreamError, Sink}
use odf_crypto.Stream.Gcm.{chunk}
use odf_crypto.Stream.Deflate.{
  Compressor, Held, Output, flush_before, release_stored, release, gather, pump, store, blocks,
  no_flush,
}

take-all : (xs : Bytes) → take (length xs) xs ≡ xs
take-all [] = refl
take-all (x ∷ xs) = ap (λ b. x ∷ b) (take-all xs)

is_empty-length : (xs : Bytes) → 0 < length xs → is_empty xs ≡ false
is_empty-length [] h = absurd (omega (arith, h))
is_empty-length (x ∷ xs) h = refl

module _ (miniz : Compressor) (carries_no_more : Bytes → Bool) (sink : Sink) where
  abbrev State : Type 0
  State = Output miniz carries_no_more sink × Held miniz carries_no_more sink

  -- The held chunk with more bytes in it.
  abbrev filled : Held miniz carries_no_more sink → Bytes → Held miniz carries_no_more sink
  filled held bytes = record held { buf = held.buf ++ bytes }

  -- Byte by byte: a chunk is released as soon as it is full.
  abbrev pub feed : State → Bytes → Result StreamError State
  feed s [] = ok s
  feed s (b ∷ bytes) =
      let held = filled s.1 (b ∷ []) in
      elim (ltb (length held.buf) chunk) [
        | true ↦ feed (s.0, held) bytes
        | false ↦ release miniz carries_no_more sink s.0 held >>= λ next. feed next bytes
      ]

  pub feed-append :
      (s : State) (xs ys : Bytes) → feed s (xs ++ ys) ≡ feed s xs >>= λ next. feed next ys
  feed-append s [] ys = refl
  feed-append s (x ∷ xs) ys = elim (Bool-cases (ltb (length (s.1.buf ++ x ∷ [])) chunk)) [
    | inl e ↦ rw (feed, e) (feed-append (s.0, filled s.1 (x ∷ [])) xs ys)
    | inr e ↦ elim (Result-cases (release miniz carries_no_more sink s.0 (filled s.1 (x ∷ [])))) [
      | inl (next, r) ↦ rw (feed, e, r) (feed-append next xs ys)
      | inr (error, r) ↦ rw (feed, e, r) refl
    ]
  ]

  -- Bytes that do not fill the chunk are held.
  feed-short :
      (out : Output miniz carries_no_more sink) (held : Held miniz carries_no_more sink)
      (xs : Bytes)
      → length held.buf + length xs < chunk
      → feed (out, held) xs ≡ ok (out, filled held xs)
  feed-short out held [] h =
      ap (λ (b : Bytes). ok (out, record held { buf = b })) (sym (append-nil held.buf))
  feed-short out held (x ∷ xs) h =
      let l = length-append held.buf (x ∷ []) in
      let below : ltb (length (held.buf ++ x ∷ [])) chunk ≡ true = ground arith in
      rw (feed, below)
        (feed-short out (filled held (x ∷ [])) xs (omega (arith, l, h))
          ∙ ap (λ (b : Bytes). ok (out, record held { buf = b }))
              (append_assoc held.buf (x ∷ []) xs))

  -- As many bytes as fill the chunk release it.
  feed-full :
      (out : Output miniz carries_no_more sink) (held : Held miniz carries_no_more sink) (x : ℕ)
      (xs : Bytes)
      → length held.buf + suc (length xs) ≡ chunk
      → feed (out, held) (x ∷ xs) ≡ release miniz carries_no_more sink out (filled held (x ∷ xs))
  feed-full out held x [] h =
      let l = length-append held.buf (x ∷ []) in
      let over : ltb (length (held.buf ++ x ∷ [])) chunk ≡ false = ground arith in
      rw (feed, over) (>>=-unit (release miniz carries_no_more sink out (filled held (x ∷ []))))
  feed-full out held x (y ∷ xs) h =
      let l = length-append held.buf (x ∷ []) in
      let below : ltb (length (held.buf ++ x ∷ [])) chunk ≡ true = ground arith in
      rw (feed, below)
        (feed-full out (filled held (x ∷ [])) y xs (omega (arith, l, h))
          ∙ ap (λ (b : Bytes). release miniz carries_no_more sink out (record held { buf = b }))
              (append_assoc held.buf (x ∷ []) (y ∷ xs)))

  feed-chunk :
      (out : Output miniz carries_no_more sink) (held : Held miniz carries_no_more sink)
      (xs : Bytes)
      → length held.buf + length xs ≡ chunk
      → length held.buf < chunk
      → feed (out, held) xs ≡ release miniz carries_no_more sink out (filled held xs)
  feed-chunk out held [] h below = absurd (omega (arith, h, below))
  feed-chunk out held (x ∷ xs) h below = feed-full out held x xs h

  release-empties :
      (out : Output miniz carries_no_more sink) (held : Held miniz carries_no_more sink)
      (next : State)
      → is_empty held.buf ≡ false
      → release miniz carries_no_more sink out held ≡ ok next
      → next.1.buf ≡ []
  unfolding release release_stored
  release-empties out held next full e = elim (Bool-cases (carries_no_more held.buf)) [
    | inl stored ↦
        let (flushed, rest, e1) =
          >>=-ok (flush_before miniz carries_no_more sink out held.compressing) _
            (rw (release, full, stored, release_stored) at e) in
        let (dst, last, e2) =
          >>=-ok (store miniz carries_no_more sink flushed.dst (blocks (length held.buf) held.buf))
            _ rest in
        ap (λ (s : State). s.1.buf) (sym (ok-injective last))
    | inr pumped ↦
        let (after, last, e1) =
          >>=-ok (pump miniz carries_no_more sink out held.buf no_flush) _
            (rw (release, full, pumped) at e) in
        ap (λ (s : State). s.1.buf) (sym (ok-injective last))
  ]

  pub feed-room :
      (s next : State) (xs : Bytes)
      → length s.1.buf < chunk
      → feed s xs ≡ ok next
      → length next.1.buf < chunk
  feed-room s next [] h e = subst (λ (q : State). length q.1.buf < chunk) (ok-injective e) h
  feed-room s next (x ∷ xs) h e =
      let held = filled s.1 (x ∷ []) in
      elim (Bool-cases (ltb (length held.buf) chunk)) [
        | inl below ↦ feed-room (s.0, held) next xs (ground arith) (rw (feed, below) at e)
        | inr over ↦
            let (after, rest, r) =
              >>=-ok (release miniz carries_no_more sink s.0 held) (λ q. feed q xs)
                (rw (feed, over) at e) in
            let l = length-append s.1.buf (x ∷ []) in
            let emptied =
              release-empties s.0 held after (is_empty-length held.buf (omega (arith, l))) r in
            feed-room after next xs (rw emptied (omega arith)) rest
      ]

  -- One round of the loop, for the bytes that it takes.
  abbrev turned :
      ℕ
      → Output miniz carries_no_more sink
      → Held miniz carries_no_more sink
      → Bytes
      → ℕ
      → Result StreamError State
  turned fuel out held rest count = elim (ltb (length (held.buf ++ take count rest)) chunk) [
    | true ↦ ok (out, filled held (take count rest))
    | false ↦ release miniz carries_no_more sink out (filled held (take count rest)) >>= λ next.
        gather miniz carries_no_more sink fuel next.0 next.1 (drop count rest)
  ]

  gather-turned :
      (fuel : ℕ) (out : Output miniz carries_no_more sink) (held : Held miniz carries_no_more sink)
      (rest : Bytes) (count : ℕ)
      → (if leb (chunk - length held.buf) (length rest)
          then chunk - length held.buf
          else length rest)
        ≡ count
      → gather miniz carries_no_more sink (suc fuel) out held rest ≡ turned fuel out held rest count
  unfolding gather
  gather-turned fuel out held rest count h = ap (turned fuel out held rest) h

  -- The loop of `write` does what feeding the bytes one by one does.
  pub gather-feed :
      (fuel : ℕ) (out : Output miniz carries_no_more sink) (held : Held miniz carries_no_more sink)
      (rest : Bytes)
      → length held.buf < chunk
      → length rest < fuel
      → gather miniz carries_no_more sink fuel out held rest ≡ feed (out, held) rest
  gather-feed zero out held rest below enough = absurd (omega (arith, enough))
  gather-feed (suc fuel) out held rest below enough =
      elim (Bool-cases (leb (chunk - length held.buf) (length rest))) [
        | inr short ↦
            let whole = take-all rest in
            let l = length-append held.buf (take (length rest) rest) in
            let all = ap length whole in
            let fits : ltb (length (held.buf ++ take (length rest) rest)) chunk ≡ true =
              ground arith in
            gather-turned fuel out held rest (length rest) (rw short refl)
            ∙ rw (turned, fits)
                (ap (λ b. ok (out, filled held b)) whole
                  ∙ sym (feed-short out held rest (ground arith)))
        | inl long ↦
            let room = chunk - length held.buf in
            let reaches : room ≤ length rest = ground arith in
            let taken : length (take room rest) ≡ room = length-take room rest (ground arith) in
            let l = length-append held.buf (take room rest) in
            let left = length-drop room rest in
            let over : ltb (length (held.buf ++ take room rest)) chunk ≡ false = ground arith in
            let nonempty : is_empty (held.buf ++ take room rest) ≡ false =
              is_empty-length _ (omega (arith, l, taken, below)) in
            let whole = feed-chunk out held (take room rest) (omega (arith, taken, below)) below in
            let filled_up = release miniz carries_no_more sink out (filled held (take room rest)) in
            let full : turned fuel out held rest room
                ≡ filled_up >>= λ next.
                    gather miniz carries_no_more sink fuel next.0 next.1 (drop room rest) =
              rw (turned, over) refl in
            gather-turned fuel out held rest room (rw long refl)
            ∙ full
            ∙ >>=-same filled_up _ (λ next. feed next (drop room rest))
                (λ next r.
                  let emptied =
                    release-empties out (filled held (take room rest)) next nonempty r in
                  gather-feed fuel next.0 next.1 (drop room rest) (rw emptied (omega arith))
                    (omega (arith, left, enough, below, reaches)))
            ∙ ap (λ (r : Result StreamError State). r >>= λ next. feed next (drop room rest))
                (sym whole)
            ∙ sym (feed-append (out, held) (take room rest) (drop room rest))
            ∙ ap (feed (out, held)) (take-drop room rest)
      ]
