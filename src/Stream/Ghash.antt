-- ===== src/Stream/Ghash.antt =====
-- src/stream.rs: `GhashStream`, GHASH over data that comes in pieces. The ghash crate is a
-- parameter: its state, `update` by one block, `update_padded` by bytes, and `finalize`.
pub mod Whole
pub mod Absorbed
pub mod Pieces
use odf_crypto.Prelude.{
  ℕ, ◌+◌, ◌-◌, ◌*◌, ◌%◌, ◌^◌, Bool, true, false, List, [], ◌∷◌, ◌++◌, Bytes, leb, ltb, ◌==◌,
  if◌then◌else◌, length, take, drop, zeros, overwrite, be_bytes,
}

pub record GhashCrate : Type 1 where
  pub State : Type 0
  pub update : State → Bytes → State
  pub update_padded : State → Bytes → State
  pub finalize : State → Bytes

module _ (crate : GhashCrate) where
  pub record GhashStream : Type 0 where
    pub h : crate.State
    pub partial : Bytes
    pub partial_len : ℕ
    pub ct_len : ℕ

  -- The stream that `GcmStream::new` begins with.
  abbrev pub new_ghash : crate.State → GhashStream
  new_ghash h = record { h = h; partial = zeros 16; partial_len = 0; ct_len = 0 }

  -- The whole blocks, and the rest kept for later.
  unfoldable pub absorb_blocks : GhashStream → Bytes → GhashStream
  absorb_blocks s bytes =
      let whole = length bytes - length bytes % 16 in
      record s {
        h = crate.update_padded s.h (take whole bytes);
        partial = overwrite 0 (drop whole bytes) s.partial;
        partial_len = length (drop whole bytes);
      }

  -- The open block takes the bytes that fit into it.
  unfoldable pub fill_partial : GhashStream → Bytes → GhashStream
  fill_partial s bytes = record s {
    partial = overwrite s.partial_len bytes s.partial;
    partial_len = s.partial_len + length bytes;
  }

  unfoldable pub close_partial : GhashStream → GhashStream
  close_partial s = record s { h = crate.update s.h s.partial; partial_len = 0 }

  -- `(16 - self.partial_len).min(data.len())`
  abbrev pub taken : GhashStream → Bytes → ℕ
  taken s bytes =
      if leb (16 - s.partial_len) (length bytes) then 16 - s.partial_len else length bytes

  -- The branch of an open block.
  unfoldable pub update_open : GhashStream → Bytes → GhashStream
  update_open s bytes =
      let filled = fill_partial s (take (taken s bytes) bytes) in
      if ltb filled.partial_len 16
      then filled
      else absorb_blocks (close_partial filled) (drop (taken s bytes) bytes)

  unfoldable pub update : GhashStream → Bytes → GhashStream
  update s bytes =
      let counted = record s { ct_len = s.ct_len + length bytes } in
      if ltb 0 s.partial_len then update_open counted bytes else absorb_blocks counted bytes

  -- The block of the lengths; the length of the bits is an `u64`.
  unfoldable pub finalize : GhashStream → Bytes
  finalize s =
      let padded =
        if ltb 0 s.partial_len
        then crate.update_padded s.h (take s.partial_len s.partial)
        else s.h in
      crate.finalize (crate.update padded (zeros 8 ++ be_bytes 8 (s.ct_len * 8)))
