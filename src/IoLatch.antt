-- ===== src/IoLatch.antt =====
-- src/io_latch.rs: the wrapper that keeps the first error of the caller's reader.
pub mod First
use odf_crypto.Prelude.{Option, none, some, List, [], ◌∷◌, Str, codes, unwrap_or, Result, ok, err}

-- An I/O error: its kind and its text.
pub record IoFailure : Type 0 where
  pub kind : Str
  pub message : Str

abbrev pub Latch : Type 0
Latch = Option IoFailure

-- `take`: what the latch holds, and the empty latch.
unfoldable pub take_latched : Latch → Option IoFailure × Latch
take_latched latch = (latch, none)

-- `record`: the latch behind the error, and what stands in for it.
unfoldable pub record_failure : Latch → IoFailure → Latch × IoFailure
record_failure latch failure = (
  some (unwrap_or latch failure),
  record { kind = failure.kind; message = codes "the reader failed" },
)

-- `read` and `seek`: the answer of the inner reader, its error recorded.
unfoldable pub latched : {A : Type 0} → Latch → Result IoFailure A → Latch × Result IoFailure A
latched latch (ok a) = (latch, ok a)
latched latch (err e) = ((record_failure latch e).0, err (record_failure latch e).1)
