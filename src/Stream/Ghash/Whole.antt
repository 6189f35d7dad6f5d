-- ===== src/Stream/Ghash/Whole.antt =====
-- src/stream.rs: GHASH of a message at once, against which that of its pieces is held.
use odf_crypto.Prelude.{◌*◌, List, [], ◌∷◌, ◌++◌, Bytes, length, zeros, be_bytes}
use odf_crypto.Stream.Ghash.{GhashCrate, GhashStream, update}

abbrev pub joined : List Bytes → Bytes
joined [] = []
joined (piece ∷ pieces) = piece ++ joined pieces

module _ (crate : GhashCrate) where
  -- One piece after the other.
  abbrev pub updates : GhashStream crate → List Bytes → GhashStream crate
  updates s [] = s
  updates s (piece ∷ pieces) = updates (update crate s piece) pieces

  -- The blocks of the message, the last one padded, and the block of the lengths.
  abbrev pub ghash_of : crate.State → Bytes → Bytes
  ghash_of h0 msg =
      crate.finalize
        (crate.update (crate.update_padded h0 msg) (zeros 8 ++ be_bytes 8 (length msg * 8)))
