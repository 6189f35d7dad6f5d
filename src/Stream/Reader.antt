-- ===== src/Stream/Reader.antt =====
-- src/stream.rs: any reader, and `read_full` over it. A read that is interrupted is tried again, so
-- it is no answer of a reader here.
pub mod Order
pub mod Ends
use odf_crypto.Prelude.{
  ℕ, zero, suc, ◌+◌, ◌-◌, ◌≤◌, true, false, [], ◌++◌, ◌≡◌, Bytes, ◌==◌, is_empty, if◌then◌else◌,
  length, Result, ok, err, ◌>>=◌, map_err,
}
use odf_crypto.Stream.Source.{IoError, Source, read_some}
use odf_crypto.Stream.Sink.{Fault, StreamError, fault}

-- `bound` is no part of the code: at least so many bytes as the reader still gives.
pub record Reader : Type 1 where
  pub State : Type 0
  pub read : ℕ → State → Result StreamError (Bytes × State)
  pub bound : State → ℕ

-- An error of a source as an `io::Error`.
abbrev pub stream_error : IoError → StreamError
stream_error (IoError.internal s) = fault (Fault.internal s)
stream_error IoError.wrong_password = fault Fault.wrong_password
stream_error IoError.changed = fault Fault.changed
stream_error IoError.unexpected_eof = StreamError.unexpected_eof
stream_error (IoError.other message) = StreamError.io message

module _ (reader : Reader) where
  -- The loop of `read_full`, for a buffer that has room for `n` bytes more.
  unfoldable pub fill_loop : ℕ → ℕ → reader.State → Result StreamError (Bytes × reader.State)
  fill_loop zero n s = ok ([], s)
  fill_loop (suc fuel) zero s = ok ([], s)
  fill_loop (suc fuel) (suc n) s = do
    (got, next) ← reader.read (suc n) s
    elim (is_empty got) [
      | true ↦ ok ([], next)
      | false ↦ fill_loop fuel (suc n - length got) next >>= λ rest. ok (got ++ rest.0, rest.1)
    ]

  -- Each read gives a byte at least, so there are no more reads than bytes.
  unfoldable pub fill : ℕ → reader.State → Result StreamError (Bytes × reader.State)
  fill n s = fill_loop n n s

  -- What a reader documents: a read gives the first of what is to come, and nothing only at the end.
  pub record Gives (rest : reader.State → Bytes) : Type 0 where
    pub in_order :
        (n : ℕ) (s next : reader.State) (got : Bytes)
        → reader.read n s ≡ ok (got, next)
        → rest s ≡ got ++ rest next
    pub at_end :
        (n : ℕ) (s next : reader.State) → reader.read (suc n) s ≡ ok ([], next) → rest next ≡ []

-- The bound is one.
pub record IsBounded (reader : Reader) : Type 0 where
  pub shrinks :
      (n : ℕ) (s next : reader.State) (got : Bytes)
      → reader.read n s ≡ ok (got, next)
      → length got + reader.bound next ≤ reader.bound s
