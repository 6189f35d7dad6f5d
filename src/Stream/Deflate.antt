-- ===== src/Stream/Deflate.antt =====
-- src/stream.rs: `DeflateWriter`, over a writer. The compressor of the miniz_oxide crate is a
-- parameter, and so is the answer of the entropy test, which is in floating point: whether a chunk
-- is already compressed. Buffers that hold nothing from one call to the next are left out.
pub mod Feed
pub mod Same
pub mod Ends
pub mod Keeps
pub mod Logged
use odf_crypto.Prelude.{
  ℕ, zero, suc, ◌+◌, ◌-◌, ◌/◌, ◌%◌, Bool, true, false, not, ◌&&◌, Option, none, some, List, [], ◌∷◌,
  ◌++◌, Str, Bytes, codes, leb, ltb, ◌==◌, if◌then◌else◌, is_empty, length, take, drop, Result, ok,
  err, ◌>>=◌, ◌>>◌, refuse_if, map_err,
}
use odf_crypto.Stream.Sink.{Fault, deflate, StreamError, fault, still_running, Sink, chunk_buffer}
use odf_crypto.Stream.Gcm.{chunk}

pub data Flush : Type 0 where
  no_flush full finishing : Flush

-- `refused` carries the `Debug` text of any other status.
pub data Status : Type 0 where
  okay done : Status
  refused : Str → Status

-- `compress` into a buffer of so many bytes: the status, how much of the input it used, the bytes it
-- made, and the compressor behind it. `rounds` is no part of the code: it bounds
-- the calls that `pump` makes.
pub record Compressor : Type 1 where
  pub State : Type 0
  pub new : State
  pub rounds : State → Bytes → Flush → ℕ
  pub compress : State → Bytes → ℕ → Flush → Status × ℕ × Bytes × State

abbrev pub stored_block_max : ℕ
stored_block_max = 0xFFFF

abbrev pub is_finishing : Flush → Bool
is_finishing finishing = true
is_finishing _ = false

-- `chunks(65535)` of the bytes, which the fuel outnumbers.
unfoldable pub blocks : ℕ → Bytes → List Bytes
blocks zero bytes = []
blocks (suc fuel) [] = []
blocks (suc fuel) (b ∷ bytes) =
    take stored_block_max (b ∷ bytes) ∷ blocks fuel (drop stored_block_max (b ∷ bytes))

-- The header of a stored block: its length and the complement, the low byte first.
unfoldable pub stored_header : ℕ → Bytes
stored_header n =
    let complement = 0xFFFF - n in
    0 ∷ (n % 256) ∷ (n / 256 % 256) ∷ (complement % 256) ∷ (complement / 256 % 256) ∷ []

-- What the loop of `pump` makes of a status: `true` ends it.
unfoldable pub turn_ends : Status → Flush → Bool → ℕ → ℕ → Result StreamError Bool
turn_ends done flush is_used_up used made = ok true
turn_ends (refused text) flush is_used_up used made = err (fault (deflate text))
turn_ends okay flush is_used_up used made =
    if is_used_up && ltb made chunk && not (is_finishing flush)
    then ok true
    else if used == 0 && made == 0 && not (is_finishing flush)
    then err (fault (deflate (codes "no progress")))
    else ok false

module _ (miniz : Compressor) (carries_no_more : Bytes → Bool) (sink : Sink) where
  -- `buf` is the part of the chunk that is filled.
  pub record Held : Type 0 where
    pub buf : Bytes
    pub compressing : Bool

  -- What `pump` changes of the writer.
  pub record Output : Type 0 where
    pub dst : sink.State
    pub comp : miniz.State

  pub record DeflateWriter : Type 0 where
    pub output : Output
    pub consumed : ℕ
    pub held : Option Held

  unfoldable pub new_deflater : (ℕ → Bool) → sink.State → Result Fault DeflateWriter
  new_deflater can_reserve dst = do
    out ← chunk_buffer can_reserve chunk
    ok (record { output = record { dst = dst; comp = miniz.new }; consumed = 0; held = none })

  unfoldable pub adaptive : (ℕ → Bool) → sink.State → Result Fault DeflateWriter
  adaptive can_reserve dst = do
    w ← new_deflater can_reserve dst
    buf ← chunk_buffer can_reserve chunk
    ok (record w { held = some (record { buf = []; compressing = false }) })

  unfoldable pub pump_loop : ℕ → Output → Bytes → Flush → Result StreamError Output
  pump_loop zero w input flush = err still_running
  pump_loop (suc fuel) w input flush = do
    let (status, used, made, comp) = miniz.compress w.comp input chunk flush
    dst ← sink.write_all w.dst made
    ends ← turn_ends status flush (is_empty (drop used input)) used (length made)
    let next : Output = record { dst = dst; comp = comp }
    elim ends [ true ↦ ok next | false ↦ pump_loop fuel next (drop used input) flush ]

  unfoldable pub pump : Output → Bytes → Flush → Result StreamError Output
  pump w input flush = pump_loop (miniz.rounds w.comp input flush) w input flush

  -- The loop over the blocks of a chunk.
  unfoldable pub store : sink.State → List Bytes → Result StreamError sink.State
  store dst [] = ok dst
  store dst (block ∷ rest) = do
    headed ← sink.write_all dst (stored_header (length block))
    next ← sink.write_all headed block
    store next rest

  -- `if held.compressing`
  unfoldable pub flush_before : Output → Bool → Result StreamError Output
  flush_before w compressing = elim compressing [ true ↦ pump w [] full | false ↦ ok w ]

  unfoldable pub release_stored : Output → Held → Result StreamError (Output × Held)
  release_stored w held = do
    flushed ← flush_before w held.compressing
    dst ← store flushed.dst (blocks (length held.buf) held.buf)
    ok (record flushed { dst = dst }, record { buf = []; compressing = false })

  -- The writer and the held chunk, which is empty behind it.
  unfoldable pub release : Output → Held → Result StreamError (Output × Held)
  release w held =
      if is_empty held.buf
      then ok (w, held)
      else if carries_no_more held.buf
      then release_stored w held
      else (pump w held.buf no_flush >>= λ next. ok (next, record { buf = []; compressing = true }))

  -- The loop of `write`: a chunk is released as soon as it is full.
  unfoldable pub gather : ℕ → Output → Held → Bytes → Result StreamError (Output × Held)
  gather zero w held rest = err still_running
  gather (suc fuel) w held rest = do
    let room = chunk - length held.buf
    let count = if leb room (length rest) then room else length rest
    let filled : Held = record held { buf = held.buf ++ take count rest }
    elim (ltb (length filled.buf) chunk) [
      | true ↦ ok (w, filled)
      | false ↦ release w filled >>= λ next. gather fuel next.0 next.1 (drop count rest)
    ]

  -- `write`, which takes all that it is given; `consumed` is a `u64`.
  unfoldable pub write : DeflateWriter → Bytes → Result StreamError DeflateWriter
  write w buf = do
    let consumed = w.consumed + length buf
    elim w.held [
      | none ↦ pump w.output buf no_flush >>= λ output.
          ok (record { output = output; consumed = consumed; held = none })
      | some held ↦ gather (length buf + 2) w.output held buf >>= λ r.
          ok (record { output = r.0; consumed = consumed; held = some r.1 })
    ]

  unfoldable pub finish : DeflateWriter → Result StreamError sink.State
  finish w = do
    released ← elim w.held [
      | none ↦ ok w.output
      | some held ↦ release w.output held >>= λ r. ok r.0
    ]
    last ← pump released [] finishing
    ok last.dst
