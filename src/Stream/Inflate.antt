-- ===== src/Stream/Inflate.antt =====
-- src/stream.rs: `InflateReader`, over a reader, with a writer as its tap. The decompressor of the
-- miniz_oxide crate is a parameter: from its state, the input, the window, the place in the window
-- and whether there may be more input, it gives a status, how much of the input it used, how much
-- it wrote, the window and its state. Of the input buffer the bytes not yet used are kept.
pub mod Turns
pub mod Exact
pub mod Ends
pub mod Kept
use odf_crypto.Prelude.{
  ℕ, zero, suc, ◌+◌, ◌-◌, ◌*◌, ◌%◌, Bool, true, false, not, ◌&&◌, ◌||◌, [], ◌∷◌, ◌++◌, Str, Bytes,
  codes, decimal_text, leb, ltb, ◌==◌, if◌then◌else◌, is_empty, length, take, drop, zeros, Result,
  ok, err, ◌>>=◌, ◌>>◌, refuse_if,
}
use odf_crypto.Stream.Sink.{
  Fault, output_limit, inflate, StreamError, fault, still_running, Sink, chunk_buffer,
}
use odf_crypto.Stream.Gcm.{chunk}
use odf_crypto.Stream.Reader.{Reader, fill}

abbrev pub inflate_window : ℕ
inflate_window = 32 * 1024

-- `TINFLStatus`; `refused` carries the `Debug` text of any other one.
pub data Progress : Type 0 where
  finished has_more_output needs_more_input : Progress
  refused : Str → Progress

pub record Decompressor : Type 1 where
  pub State : Type 0
  pub new : State
  pub decompress : State → Bytes → Bytes → ℕ → Bool → Progress × ℕ × ℕ × Bytes × State

module _ (crate : Decompressor) (reader : Reader) (sink : Sink) where
  pub record InflateReader : Type 0 where
    pub src : reader.State
    pub tap : sink.State
    pub dec : crate.State
    pub input : Bytes
    pub src_done : Bool
    pub window : Bytes
    pub out_pos : ℕ
    pub pending : ℕ
    pub pending_len : ℕ
    pub produced : ℕ
    pub expected : ℕ
    pub limit : ℕ
    pub is_done : Bool

  -- The fields of a new reader.
  abbrev pub fresh : reader.State → ℕ → ℕ → sink.State → InflateReader
  fresh src expected limit tap = record {
    src = src;
    tap = tap;
    dec = crate.new;
    input = [];
    src_done = false;
    window = zeros inflate_window;
    out_pos = 0;
    pending = 0;
    pending_len = 0;
    produced = 0;
    expected = expected;
    limit = limit;
    is_done = false;
  }

  unfoldable pub with_tap :
      (ℕ → Bool) → reader.State → ℕ → ℕ → sink.State → Result Fault InflateReader
  with_tap can_reserve src expected limit tap = do
    input ← chunk_buffer can_reserve chunk
    window ← chunk_buffer can_reserve inflate_window
    ok (record (fresh src expected limit tap) { window = window })

  -- The first part of `step`: more input, if there is none.
  unfoldable pub refill : InflateReader → Result StreamError InflateReader
  refill r =
      if is_empty r.input && not r.src_done
      then (fill reader chunk r.src >>= λ got.
          ok (record r { src = got.1; input = got.0; src_done = ltb (length got.0) chunk }))
      else ok r

  -- `if consumed > 0`
  unfoldable pub tap_input : sink.State → ℕ → Bytes → Result StreamError sink.State
  tap_input tap consumed used = if consumed == 0 then ok tap else sink.write_all tap used

  -- The `match` on the status.
  unfoldable pub conclude : Progress → InflateReader → Result StreamError InflateReader
  conclude finished r = do
    refuse_if (not (r.produced == r.expected)) (
        fault (
          inflate (
            codes "inflated "
            ++ decimal_text r.produced
            ++ codes " != manifest:size "
            ++ decimal_text r.expected)))
    ok (record r { is_done = true })
  conclude has_more_output r = ok r
  conclude needs_more_input r = do
    refuse_if (r.src_done && is_empty r.input && (r.pending_len == 0))
        (fault (inflate (codes "truncated DEFLATE stream")))
    ok r
  conclude (refused text) r = err (fault (inflate text))

  -- The call of the decompressor, and what follows it.
  unfoldable pub decompress_turn : InflateReader → Result StreamError InflateReader
  decompress_turn r = do
    let (status, consumed, written, window, dec) =
        crate.decompress r.dec r.input r.window r.out_pos (not r.src_done)
    tap ← tap_input r.tap consumed (take consumed r.input)
    let next : InflateReader = record r {
      tap = tap;
      dec = dec;
      input = drop consumed r.input;
      window = window;
      out_pos = (r.out_pos + written) % inflate_window;
      pending = r.out_pos;
      pending_len = written;
      produced = r.produced + written;
    }
    refuse_if (ltb next.limit next.produced) (fault output_limit)
    refuse_if (ltb next.expected next.produced)
        (fault (inflate (codes "inflates past manifest:size " ++ decimal_text next.expected)))
    conclude status next

  unfoldable pub step : InflateReader → Result StreamError InflateReader
  step r = refill r >>= decompress_turn

  -- The loop of `read`.
  unfoldable pub await : ℕ → InflateReader → Result StreamError InflateReader
  await zero r = err still_running
  await (suc fuel) r = elim (not (r.pending_len == 0) || r.is_done) [
    | true ↦ ok r
    | false ↦ step r >>= await fuel
  ]

  -- `read` into a buffer of `n` bytes; nothing is pending behind the loop only at the end.
  unfoldable pub inflate_read : ℕ → InflateReader → Result StreamError (Bytes × InflateReader)
  inflate_read n r = do
    ready ← await (reader.bound r.src + 4) r
    let count = if leb ready.pending_len n then ready.pending_len else n
    ok (
      take count (drop ready.pending ready.window),
      record ready { pending = ready.pending + count; pending_len = ready.pending_len - count },
    )
