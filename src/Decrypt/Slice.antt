-- ===== src/Decrypt/Slice.antt =====
-- src/decrypt_stream.rs: `SliceWriter`, a buffer whose size was decided beforehand as an output
-- that can seek. An I/O error is its text; a `usize` has 64 bits.
pub mod Splice
pub mod File
use odf_crypto.Prelude.{
  ℕ, ◌+◌, ◌-◌, ◌^◌, ℤ, pos, negsuc, suc, Bool, true, false, Option, none, some, Str, Bytes, codes,
  leb, ltb, if◌then◌else◌, length, overwrite, zeros, Result, ok, err,
}

pub record SliceWriter : Type 0 where
  pub buf : Bytes
  pub position : ℕ
  pub len : ℕ

-- `SliceWriter::new`
abbrev pub new_slice : Bytes → SliceWriter
new_slice buf = record { buf = buf; position = 0; len = 0 }

-- `checked_add` of `usize` and `u64`
abbrev pub checked_add : ℕ → ℕ → Option ℕ
checked_add a b = if ltb (a + b) (2 ^ 64) then some (a + b) else none

-- `u64::checked_add_signed`
abbrev pub checked_add_signed : ℕ → ℤ → Option ℕ
checked_add_signed a (pos d) = checked_add a d
checked_add_signed a (negsuc d) = if ltb d a then some (a - suc d) else none

-- `filter(|&n| n <= bound)`
abbrev pub at_most : ℕ → Option ℕ → Option ℕ
at_most bound none = none
at_most bound (some n) = if leb n bound then some n else none

abbrev pub written_to : SliceWriter → Bytes → Option ℕ → Result Str SliceWriter
written_to s bytes none = err (codes "output bound exceeded")
written_to s bytes (some end) = ok (record {
  buf = overwrite s.position bytes s.buf;
  position = end;
  len = if leb s.len end then end else s.len;
})

-- `write`, which takes all of the bytes or none.
unfoldable pub write : SliceWriter → Bytes → Result Str SliceWriter
write s bytes = written_to s bytes (at_most (length s.buf) (checked_add s.position (length bytes)))

pub data SeekFrom : Type 0 where
  start : ℕ → SeekFrom
  end current : ℤ → SeekFrom

unfoldable pub seek_base : ℕ → ℕ → SeekFrom → Option ℕ
seek_base len position (start n) = some n
seek_base len position (end d) = checked_add_signed len d
seek_base len position (current d) = checked_add_signed position d

abbrev pub moved_to : SliceWriter → Option ℕ → Result Str SliceWriter
moved_to s none = err (codes "seek outside the output")
moved_to s (some n) = ok (record s { position = n })

unfoldable pub seek : SliceWriter → SeekFrom → Result Str SliceWriter
seek s to = moved_to s (at_most (length s.buf) (seek_base s.len s.position to))
