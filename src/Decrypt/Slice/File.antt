-- ===== src/Decrypt/Slice/File.antt =====
-- src/decrypt_stream.rs: the slice as a file of bounded size.
use odf_crypto.Prelude.{
  ℕ, ◌+◌, ◌^◌, ◌≤◌, ◌<◌, Option, none, some, List, [], ◌∷◌, ◌++◌, ◌≡◌, refl, sym, ap, ◌∙◌, arith,
  Str, Bytes, codes, leb, if◌then◌else◌, Bool-cases, inl, inr, length, length-append, overwrite,
  zeros, length-zeros, subst, ok-injective, Result, ok, err, ◌>>=◌,
}
use odf_crypto.Decrypt.Slice.Splice.{
  splice, left, overwrite-splice, splice-length, length-overwrite,
}
use odf_crypto.Decrypt.Slice.{
  SliceWriter, new_slice, checked_add, at_most, write, SeekFrom, seek_base, moved_to, seek,
}

-- A file that may grow up to `capacity`, with the position of the next write.
pub record File : Type 0 where
  pub content : Bytes
  pub position : ℕ
  pub capacity : ℕ

abbrev pub file_write : File → Bytes → Result Str File
file_write f bytes =
    if leb (f.position + length bytes) f.capacity
    then ok (record f {
      content = splice f.content f.position bytes;
      position = f.position + length bytes;
    })
    else err (codes "output bound exceeded")

abbrev pub file_moved_to : File → Option ℕ → Result Str File
file_moved_to f none = err (codes "seek outside the output")
file_moved_to f (some n) = ok (record f { position = n })

abbrev pub file_seek : File → SeekFrom → Result Str File
file_seek f to = file_moved_to f (at_most f.capacity (seek_base (length f.content) f.position to))

-- The slice holds the file's bytes, and zeros from its end on.
pub record IsFile (s : SliceWriter) (f : File) : Type 0 where
  pub room : ℕ
  pub bytes : s.buf ≡ f.content ++ zeros room
  pub len : s.len ≡ length f.content
  pub position : s.position ≡ f.position
  pub capacity : length s.buf ≡ f.capacity

-- Both succeed, with the slice holding the file's bytes, or both refuse with the same words.
abbrev pub AgreeOn : Result Str SliceWriter → Result Str File → Type 0
AgreeOn (ok s) (ok f) = IsFile s f
AgreeOn (err d) (err e) = d ≡ e
AgreeOn _ _ = ⊥

module _ (s : SliceWriter) (f : File) (h : IsFile s f) (small : f.capacity < 2 ^ 64) where
  room_fits : length f.content + h.room ≡ f.capacity
  room_fits = omega (
    arith,
    length-append f.content (zeros h.room),
    length-zeros h.room,
    ap length h.bytes,
    h.capacity,
  )

  write-target :
      (bytes : Bytes)
      → at_most (length s.buf) (checked_add s.position (length bytes)) ≡ (
          if leb (f.position + length bytes) f.capacity
          then some (f.position + length bytes)
          else none)
  write-target bytes = let p = h.position in let c = h.capacity in ground arith

  write-AgreeOn : (bytes : Bytes) → AgreeOn (write s bytes) (file_write f bytes)
  unfolding write
  write-AgreeOn bytes = elim (Bool-cases (leb (f.position + length bytes) f.capacity)) [
    | inl e ↦
        let fits : f.position + length bytes ≤ length f.content + h.room =
          let room = room_fits in ground arith in
        let same : overwrite s.position bytes s.buf
            ≡ splice f.content f.position bytes
              ++ zeros (left f.content bytes f.position h.room fits) =
          ap (λ (n : ℕ). overwrite n bytes s.buf) h.position
          ∙ ap (overwrite f.position bytes) h.bytes
          ∙ overwrite-splice f.content bytes f.position h.room fits in
        rw (write-target bytes, e)
          (record {
            room = left f.content bytes f.position h.room fits;
            bytes = same;
            len =
                let long = splice-length f.content bytes f.position h.room fits in
                let l = h.len in ground arith;
            position = refl;
            capacity = length-overwrite s.position bytes s.buf ∙ h.capacity;
          })
    | inr e ↦ rw (write-target bytes, e) refl
  ]

  seek-AgreeOn : (to : SeekFrom) → AgreeOn (seek s to) (file_seek f to)
  unfolding seek
  seek-AgreeOn to =
      let base : seek_base s.len s.position to ≡ seek_base (length f.content) f.position to =
        ap (λ (n : ℕ). seek_base n s.position to) h.len
        ∙ ap (λ (n : ℕ). seek_base (length f.content) n to) h.position in
      let target : at_most (length s.buf) (seek_base s.len s.position to)
          ≡ at_most f.capacity (seek_base (length f.content) f.position to) =
        ap (λ (n : ℕ). at_most n (seek_base s.len s.position to)) h.capacity
        ∙ ap (at_most f.capacity) base in
      rw target (agree (at_most f.capacity (seek_base (length f.content) f.position to)))
    where
      agree : (o : Option ℕ) → AgreeOn (moved_to s o) (file_moved_to f o)
      agree none = refl
      agree (some n) = record {
        room = h.room;
        bytes = h.bytes;
        len = h.len;
        position = refl;
        capacity = h.capacity;
      }

pub data Request : Type 0 where
  write_all : Bytes → Request
  seek_to : SeekFrom → Request

abbrev pub slice_step : SliceWriter → Request → Result Str SliceWriter
slice_step s (write_all bytes) = write s bytes
slice_step s (seek_to to) = seek s to

abbrev pub file_step : File → Request → Result Str File
file_step f (write_all bytes) = file_write f bytes
file_step f (seek_to to) = file_seek f to

-- Requests up to the first that is refused.
unfoldable pub slice_run : SliceWriter → List Request → Result Str SliceWriter
slice_run s [] = ok s
slice_run s (r ∷ requests) = slice_step s r >>= λ next. slice_run next requests

unfoldable pub file_run : File → List Request → Result Str File
file_run f [] = ok f
file_run f (r ∷ requests) = file_step f r >>= λ next. file_run next requests

step-AgreeOn :
    (s : SliceWriter) (f : File)
    → IsFile s f
    → f.capacity < 2 ^ 64
    → (r : Request) → AgreeOn (slice_step s r) (file_step f r)
step-AgreeOn s f h small (write_all bytes) = write-AgreeOn s f h small bytes
step-AgreeOn s f h small (seek_to to) = seek-AgreeOn s f h small to

moved-capacity :
    (f : File) (o : Option ℕ) (g : File) → file_moved_to f o ≡ ok g → g.capacity ≡ f.capacity
moved-capacity f none g e = cc
moved-capacity f (some n) g e = ap (λ (x : File). x.capacity) (sym (ok-injective e))

step-capacity : (f : File) (r : Request) (g : File) → file_step f r ≡ ok g → g.capacity ≡ f.capacity
step-capacity f (write_all bytes) g e =
    elim (Bool-cases (leb (f.position + length bytes) f.capacity)) [
      | inl fits ↦ ap (λ (x : File). x.capacity) (sym (ok-injective (rw fits at e)))
      | inr over ↦ let refused = rw over at e in absurd (cc)
    ]
step-capacity f (seek_to to) g e =
    moved-capacity f (at_most f.capacity (seek_base (length f.content) f.position to)) g e

AgreeOn->>= :
    (x : Result Str SliceWriter) (y : Result Str File) (k : SliceWriter → Result Str SliceWriter)
    (l : File → Result Str File)
    → AgreeOn x y
    → ((s : SliceWriter) (f : File) → IsFile s f → y ≡ ok f → AgreeOn (k s) (l f))
    → AgreeOn (x >>= k) (y >>= l)
AgreeOn->>= (ok s) (ok f) k l h next = next s f h refl
AgreeOn->>= (ok s) (err e) k l h next = absurd h
AgreeOn->>= (err d) (ok f) k l h next = absurd h
AgreeOn->>= (err d) (err e) k l h next = h

run-AgreeOn :
    (s : SliceWriter) (f : File) (requests : List Request)
    → IsFile s f
    → f.capacity < 2 ^ 64
    → AgreeOn (slice_run s requests) (file_run f requests)
unfolding slice_run file_run
run-AgreeOn s f [] h small = h
run-AgreeOn s f (r ∷ requests) h small =
    AgreeOn->>= (slice_step s r) (file_step f r) (λ next. slice_run next requests)
      (λ next. file_run next requests) (step-AgreeOn s f h small r)
      (λ s' f' same e.
        run-AgreeOn s' f' requests same
          (subst (λ (n : ℕ). n < 2 ^ 64) (sym (step-capacity f r f' e)) small))

-- Every sequence of writes and seeks on a slice of zeros below 2^64 bytes does what it does on an
-- empty file that may grow to that size, a gap before a write being zeros: it is refused at the same
-- request, with the same words, or ends with the file's bytes, followed by zeros, and its position.
pub slice_run-AgreeOn :
    (room : ℕ)
    → room < 2 ^ 64
    → (requests : List Request)
    → AgreeOn
        (slice_run (new_slice (zeros room)) requests)
        (file_run (record { content = []; position = 0; capacity = room }) requests)
slice_run-AgreeOn room small requests =
    run-AgreeOn (new_slice (zeros room)) (record { content = []; position = 0; capacity = room })
      requests
      (record {
        room = room;
        bytes = refl;
        len = refl;
        position = refl;
        capacity = length-zeros room;
      })
      small
