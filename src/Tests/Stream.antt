-- ===== src/Tests/Stream.antt =====
-- src/stream.rs on concrete input, with a GHASH that keeps its blocks and a key stream of zeros.
use odf_crypto.Prelude.{
  ℕ, ◌≡◌, refl, sym, arith, true, false, none, some, ◌⊎◌, err, List, [], ◌∷◌, ◌++◌, Bytes, length,
  length-append, length-take, length-zeros, take, zeros, ok,
}
use mathlib.Core.List.{append_assoc, append-nil}
use odf_crypto.Stream.Ghash.{GhashCrate}
use odf_crypto.Stream.Ghash.Absorbed.{BlockByBlock}
use odf_crypto.Stream.Gcm.{AesCrates, start_gcm, new_gcm}
use odf_crypto.Types.{no_checksum}
use odf_crypto.Tests.Keys.{hashes}
use odf_crypto.Stream.Source.{wrong_password}
use odf_crypto.Stream.Gate.{ChecksumGate, new_gate, window_matches}
use odf_crypto.Stream.Gate.Release.{reads, left, reads-released}
use odf_crypto.Stream.Gcm.Seal.{RunsOn}

abbrev ghash : GhashCrate
ghash = record {
  State = Bytes;
  update = λ h b. h ++ b;
  update_padded = λ h b. h ++ b;
  finalize = λ h. take 16 (h ++ zeros 16);
}

pub block_by_block : BlockByBlock ghash
block_by_block = record {
  split = λ h front rest aligned. sym (append_assoc h front rest);
  empty = λ h. append-nil h;
  block = λ h b long. refl;
}

pub sixteen : (h : Bytes) → length (ghash.finalize h) ≡ 16
sixteen h =
    length-take 16 (h ++ zeros 16) (omega (arith, length-append h (zeros 16), length-zeros 16))

abbrev pub crates : AesCrates
crates = record {
  ghash = ghash;
  Ctr = ℕ;
  encrypt_block = λ key block. take 16 (key ++ block);
  inner_iv_init = λ key block. 0;
  apply_keystream = λ c bytes. (c, bytes);
  ghash_new = λ h. h;
}

pub runs_on : RunsOn crates
runs_on = record { empty = λ c. refl; append = λ c xs ys. refl; restores = λ c xs. refl }

abbrev pub pieces : List Bytes
pieces = (1 ∷ 2 ∷ 3 ∷ []) ∷ (4 ∷ 5 ∷ []) ∷ []

pub lengths_are_right :
    new_gcm crates (zeros 16) (zeros 12) ≡ some (start_gcm crates (zeros 16) (zeros 12))
unfolding new_gcm
lengths_are_right = refl

-- A member of three bytes without a digest.
reads-released_example :
    ((window_matches hashes no_checksum (take 1024 (1 ∷ 2 ∷ 3 ∷ [])) ≡ false)
      × (reads hashes
            (2 ∷ 2 ∷ [])
            (new_gate (record { bytes = 1 ∷ 2 ∷ 3 ∷ []; failure = none }) no_checksum)
          ≡ err wrong_password))
    ⊎ ((window_matches hashes no_checksum (take 1024 (1 ∷ 2 ∷ 3 ∷ [])) ≡ true)
        × ((out : Bytes) × (gate : ChecksumGate) × (reads hashes
                (2 ∷ 2 ∷ [])
                (new_gate (record { bytes = 1 ∷ 2 ∷ 3 ∷ []; failure = none }) no_checksum)
              ≡ ok (out, gate))
            × (out ++ left hashes gate ≡ 1 ∷ 2 ∷ 3 ∷ [])))
reads-released_example = reads-released hashes no_checksum (1 ∷ 2 ∷ 3 ∷ []) 2 (2 ∷ [])
