-- ===== src/Stream/Source.antt =====
-- src/stream.rs: a reader, and `read_full` over it.
use odf_crypto.Prelude.{
  ℕ, Option, none, some, [], ◌∷◌, Str, Bytes, leb, if◌then◌else◌, length, take, drop, Result, ok,
  err,
}

-- An error of a reader: one of this program's faults, the end of the input, or the
-- reader's own.
pub data IoError : Type 0 where
  internal : Str → IoError
  wrong_password changed : IoError
  unexpected_eof : IoError
  other : Str → IoError

-- What a reader still gives: its bytes, then its end or an error.
pub record Source : Type 0 where
  pub bytes : Bytes
  pub failure : Option Str

-- `read_full` into a buffer of `n` bytes: the bytes read, and what is left.
unfoldable pub read_full : ℕ → Source → Result IoError (Bytes × Source)
read_full n src =
    if leb n (length src.bytes)
    then ok (take n src.bytes, record src { bytes = drop n src.bytes })
    else elim src.failure [
      | none ↦ ok (src.bytes, record src { bytes = [] })
      | some message ↦ err (other message)
    ]

-- One `read` into a buffer of `n` bytes, which takes what is there.
unfoldable pub read_some : ℕ → Source → Result IoError (Bytes × Source)
read_some n src = elim src.bytes [
  | [] ↦ elim src.failure [ none ↦ ok ([], src) | some message ↦ err (other message) ]
  | b ∷ bytes ↦ ok (take n (b ∷ bytes), record src { bytes = drop n (b ∷ bytes) })
]
