-- ===== src/Stream/Sealing.antt =====
-- src/stream.rs: `GcmEncryptWriter`, over a writer and the AES crates as parameters. Its buffer holds
-- nothing from one call to the next, so it is left out once it is allocated.
pub mod Sealed
use odf_crypto.Prelude.{
  ℕ, zero, suc, Bool, true, false, [], ◌∷◌, Bytes, leb, if◌then◌else◌, length, take, drop, Result,
  ok, err, ◌>>=◌, ◌>>◌, refuse_if, ◌==◌,
}
use odf_crypto.Stream.Sink.{Fault, StreamError, write_zero, Sink, chunk_buffer}
use odf_crypto.Stream.Gcm.{AesCrates, GcmStream, chunk, encrypt, tag}

module _ (crates : AesCrates) (sink : Sink) where
  pub record GcmEncryptWriter : Type 0 where
    pub dst : sink.State
    pub gcm : GcmStream crates

  unfoldable pub new_sealer :
      (ℕ → Bool) → sink.State → GcmStream crates → Result Fault GcmEncryptWriter
  new_sealer can_reserve dst gcm = do
    buffer ← chunk_buffer can_reserve chunk
    ok (record { dst = dst; gcm = gcm })

  -- `write`: how many bytes were taken.
  unfoldable pub seal : GcmEncryptWriter → Bytes → Result StreamError (ℕ × GcmEncryptWriter)
  seal w data_in =
      let n = if leb (length data_in) chunk then length data_in else chunk in
      let (gcm, ciphertext) = encrypt crates w.gcm (take n data_in) in
      sink.write_all w.dst ciphertext >>= λ dst. ok (n, record { dst = dst; gcm = gcm })

  -- The standard library's `write_all`, whose rounds the fuel bounds.
  unfoldable pub seal_loop : ℕ → GcmEncryptWriter → Bytes → Result StreamError GcmEncryptWriter
  seal_loop zero w data_in = ok w
  seal_loop (suc fuel) w [] = ok w
  seal_loop (suc fuel) w (b ∷ data_in) = do
    (n, next) ← seal w (b ∷ data_in)
    refuse_if (n == 0) write_zero
    seal_loop fuel next (drop n (b ∷ data_in))

  unfoldable pub seal_all : GcmEncryptWriter → Bytes → Result StreamError GcmEncryptWriter
  seal_all w data_in = seal_loop (length data_in) w data_in

  abbrev pub sealing : Sink
  sealing = record { State = GcmEncryptWriter; write_all = seal_all }

  -- `finish`: the tag behind the ciphertext.
  unfoldable pub finish_seal : GcmEncryptWriter → Result StreamError sink.State
  finish_seal w = sink.write_all w.dst (tag crates w.gcm)
