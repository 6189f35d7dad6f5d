-- ===== src/Stream/Sink.antt =====
-- src/stream.rs: `Fault`, the buffers of a stream, and a writer as what `write_all` does to it.
use odf_crypto.Prelude.{
  ℕ, Bool, true, false, Str, Bytes, codes, ◌++◌, decimal_text, zeros, Result, ok, err,
}
use odf_crypto.BadParameter.{BadParameter}
use odf_crypto.BadParameter.Display.{describe}

pub data Fault : Type 0 where
  wrong_password changed output_limit : Fault
  bad_parameters : BadParameter → Fault
  internal inflate deflate : Str → Fault
  alloc : ℕ → Fault

-- `Display`
unfoldable pub fault_message : Fault → Str
fault_message wrong_password = codes "wrong password"
fault_message changed = codes "input changed between passes"
fault_message (bad_parameters b) = describe b
fault_message (internal s) = s
fault_message (inflate s) = s
fault_message output_limit = codes "output limit exceeded"
fault_message (alloc n) = codes "could not allocate " ++ decimal_text n ++ codes " bytes"
fault_message (deflate s) = codes "deflate failed: " ++ s

-- An `io::Error`: a fault that travels in one, or the text of the caller's own. `still_running` is no
-- error of the code: a loop has not ended in the rounds that it was given.
pub data StreamError : Type 0 where
  fault : Fault → StreamError
  unexpected_eof write_zero still_running : StreamError
  io : Str → StreamError

-- `Fault::take`
unfoldable pub take_fault : StreamError → Result StreamError Fault
take_fault (fault f) = ok f
take_fault e = err e

pub record Sink : Type 1 where
  pub State : Type 0
  pub write_all : State → Bytes → Result StreamError State

-- `chunk_buffer`, by whether the host grants so many bytes
unfoldable pub chunk_buffer : (ℕ → Bool) → ℕ → Result Fault Bytes
chunk_buffer can_reserve n = elim (can_reserve n) [ true ↦ ok (zeros n) | false ↦ err (alloc n) ]
