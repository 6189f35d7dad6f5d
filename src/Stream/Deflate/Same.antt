-- ===== src/Stream/Deflate/Same.antt =====
-- src/stream.rs: the output of `DeflateWriter` does not depend on how its input is cut.
use odf_crypto.Prelude.{
  ℕ, ◌+◌, ◌<◌, Bool, some, List, [], ◌∷◌, ◌++◌, ◌≡◌, refl, sym, ap, ◌∙◌, arith, Bytes, length,
  length-append, Result, ok, ◌>>=◌, >>=-assoc, >>=-same,
}
use odf_crypto.Stream.Sink.{StreamError, Sink}
use odf_crypto.Stream.Ghash.Whole.{joined}
use odf_crypto.Stream.Gcm.{chunk}
use odf_crypto.Stream.Deflate.{Compressor, Held, Output, DeflateWriter, write}
use odf_crypto.Stream.Deflate.Feed.{feed, feed-append, feed-room, gather-feed}

module _ (miniz : Compressor) (carries_no_more : Bytes → Bool) (sink : Sink) where
  -- An adaptive writer.
  abbrev pub holding :
      Output miniz carries_no_more sink × Held miniz carries_no_more sink
      → ℕ
      → DeflateWriter miniz carries_no_more sink
  holding s consumed = record { output = s.0; consumed = consumed; held = some s.1 }

  -- The chunk that is held is not full.
  abbrev pub HasRoom : Output miniz carries_no_more sink × Held miniz carries_no_more sink → Type 0
  HasRoom s = length s.1.buf < chunk

  -- A write feeds its bytes.
  abbrev fed :
      Output miniz carries_no_more sink × Held miniz carries_no_more sink
      → ℕ
      → Bytes
      → Result StreamError (DeflateWriter miniz carries_no_more sink)
  fed s consumed bytes = feed miniz carries_no_more sink s bytes >>= λ next.
      ok (holding next (consumed + length bytes))

  write-fed :
      (s : Output miniz carries_no_more sink × Held miniz carries_no_more sink) (consumed : ℕ)
      (bytes : Bytes)
      → HasRoom s
      → write miniz carries_no_more sink (holding s consumed) bytes ≡ fed s consumed bytes
  unfolding write
  write-fed s consumed bytes room =
      rw
        (gather-feed miniz carries_no_more sink (length bytes + 2) s.0 s.1 bytes room (omega arith))
        refl

  -- One write after the other.
  abbrev pub writes :
      DeflateWriter miniz carries_no_more sink
      → List Bytes
      → Result StreamError (DeflateWriter miniz carries_no_more sink)
  writes w [] = ok w
  writes w (d ∷ ds) = write miniz carries_no_more sink w d >>= λ next. writes next ds

  fed-append :
      (s : Output miniz carries_no_more sink × Held miniz carries_no_more sink) (consumed : ℕ)
      (xs ys : Bytes)
      → feed miniz carries_no_more sink s xs >>= (λ next. fed next (consumed + length xs) ys)
        ≡ fed s consumed (xs ++ ys)
  fed-append s consumed xs ys =
      let count : consumed + length xs + length ys ≡ consumed + length (xs ++ ys) =
        let l = length-append xs ys in omega (arith, l) in
      let tail : Output miniz carries_no_more sink × Held miniz carries_no_more sink
          → Result StreamError (DeflateWriter miniz carries_no_more sink) =
        λ next. ok (holding next (consumed + length (xs ++ ys))) in
      ap
        (λ (n : ℕ). feed miniz carries_no_more sink s xs >>= λ next.
          feed miniz carries_no_more sink next ys >>= λ last. ok (holding last n))
        count
      ∙ >>=-assoc (feed miniz carries_no_more sink s xs)
          (λ next. feed miniz carries_no_more sink next ys) tail
      ∙ ap (λ r. r >>= tail) (sym (feed-append miniz carries_no_more sink s xs ys))

  write-append :
      (s : Output miniz carries_no_more sink × Held miniz carries_no_more sink) (consumed : ℕ)
      (xs : Bytes) (ds : List Bytes)
      → HasRoom s
      → writes (holding s consumed) (xs ∷ ds)
        ≡ feed miniz carries_no_more sink s xs >>= λ next.
            writes (holding next (consumed + length xs)) ds
  write-append s consumed xs ds room =
      ap (λ r. r >>= λ next. writes next ds) (write-fed s consumed xs room)
      ∙ sym (
          >>=-assoc (feed miniz carries_no_more sink s xs)
            (λ next. ok (holding next (consumed + length xs))) (λ next. writes next ds))

  -- What an adaptive writer is after some writes, or how they fail, depends on the bytes that were
  -- written and not on how they were cut: it is as after one write of them all, if the chunk that it
  -- holds at first is not full.
  pub writes-joined :
      (s : Output miniz carries_no_more sink × Held miniz carries_no_more sink) (consumed : ℕ)
      (ds : List Bytes)
      → HasRoom s
      → writes (holding s consumed) ds
        ≡ write miniz carries_no_more sink (holding s consumed) (joined ds)
  writes-joined s consumed [] room =
      ap (λ n. ok (holding s n)) (omega arith) ∙ sym (write-fed s consumed [] room)
  writes-joined s consumed (d ∷ ds) room =
      write-append s consumed d ds room
      ∙ >>=-same (feed miniz carries_no_more sink s d) _
          (λ next. fed next (consumed + length d) (joined ds))
          (λ next e.
            let room' = feed-room miniz carries_no_more sink s next d room e in
            writes-joined next (consumed + length d) ds room'
            ∙ write-fed next (consumed + length d) (joined ds) room')
      ∙ fed-append s consumed d (joined ds)
      ∙ sym (write-fed s consumed (d ++ joined ds) room)
