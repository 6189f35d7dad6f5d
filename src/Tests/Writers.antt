-- ===== src/Tests/Writers.antt =====
-- The writers and the reader of src/stream.rs on concrete input, over a writer that keeps its bytes.
use odf_crypto.Prelude.{
  ℕ, suc, ◌≡◌, ◌+◌, ◌<◌, inl, inr, is_empty, refl, sym, ap, arith, true, false, none, List, [], ◌∷◌,
  ◌++◌, Bytes, length, drop, zeros, ok, ok-injective, Refuses,
}
use odf_crypto.Stream.Source.{Source, read_full, read_some}
use odf_crypto.Stream.Sink.{Sink}
use odf_crypto.Stream.Bits.{ct_eq, difference}
use odf_crypto.Stream.Ghash.{finalize, update, absorb_blocks, update_open, fill_partial}
use odf_crypto.Stream.Ghash.Whole.{joined}
use odf_crypto.Stream.Gcm.{start_gcm, encrypt, decrypt, tag, gcm_verify}
use odf_crypto.Stream.Gcm.Seal.{encrypts, decrypts}
use odf_crypto.Stream.Sealing.{GcmEncryptWriter, seal, seal_loop, seal_all, finish_seal}
use odf_crypto.Stream.Sealing.Sealed.{Appends, writes, written_opens}
use odf_crypto.Stream.Opening.{GcmDecryptReader, new_reader, open_read, open_some, check_tag}
use odf_crypto.Stream.Opening.Released.{IsVerified}
use odf_crypto.Stream.Opening.Ends.{opens, opens-IsVerified}
use odf_crypto.Stream.Deflate.{
  Compressor, Flush, finishing, Status, okay, done, Output, Held, write, pump,
}
use odf_crypto.Stream.Deflate.Same
use odf_crypto.Stream.Deflate.Same.{holding, writes-joined}
use odf_crypto.Stream.Deflate.Logged.{deflated}
use odf_crypto.Stream.Deflate.Ends.{Settles, HasMore, HasEnded, pump-HasEnded}
use odf_crypto.Stream.Deflate.{
  adaptive, new_deflater, finish, gather, release, release_stored, flush_before, store, blocks,
  stored_header, pump_loop, turn_ends,
}
use odf_crypto.Encrypt.Payload.{ZipOut, pump_input, write_payload}
use odf_crypto.Encrypt.Payload.Opens.{write_payload-opens}
use odf_crypto.Stream.Sink.{chunk_buffer}
use odf_crypto.Stream.Sealing.{new_sealer}
use odf_crypto.Stream.Gcm.{new_gcm}
use odf_crypto.Tests.Keys.{host}
use odf_crypto.Tests.Stream.{crates, runs_on, block_by_block, sixteen, pieces, lengths_are_right}

abbrev kept : Sink
kept = record { State = Bytes; write_all = λ s b. ok (s ++ b) }

kept-Appends : Appends kept (λ s. s)
kept-Appends s next b h = sym (ok-injective h)

abbrev at_start : GcmEncryptWriter crates kept
at_start = record { dst = 9 ∷ []; gcm = start_gcm crates (zeros 16) (zeros 12) }

abbrev at_end : GcmEncryptWriter crates kept
at_end = record {
  dst = 9 ∷ 1 ∷ 2 ∷ 3 ∷ 4 ∷ 5 ∷ [];
  gcm = (encrypts crates (start_gcm crates (zeros 16) (zeros 12)) pieces).0;
}

wrote : writes crates kept at_start pieces ≡ ok at_end
unfolding seal_all seal_loop seal encrypt
wrote = refl

written_opens_example :
    (ciphertext stored : Bytes) × (at_end.dst ++ tag crates at_end.gcm
      ≡ 9 ∷ [] ++ (ciphertext ++ stored))
    × ((rest : Bytes)
        → gcm_verify crates
            (zeros 16)
            (zeros 12)
            (record { bytes = ciphertext ++ (stored ++ rest); failure = none })
            (length ciphertext)
          ≡ ok true)
    × ((others : List Bytes)
        → joined others ≡ ciphertext
        → (decrypts crates (start_gcm crates (zeros 16) (zeros 12)) others).1 ≡ joined pieces)
unfolding finish_seal
written_opens_example =
    written_opens crates runs_on block_by_block sixteen kept (λ s. s) kept-Appends (zeros 16)
      (zeros 12) (9 ∷ []) (at_end.dst ++ tag crates at_end.gcm) at_end pieces lengths_are_right
      wrote refl

abbrev sealed : Source
sealed = record { bytes = 1 ∷ 2 ∷ 3 ∷ 4 ∷ 5 ∷ [] ++ tag crates at_end.gcm; failure = none }

abbrev sizes : List ℕ
sizes = 2 ∷ 2 ∷ 2 ∷ 2 ∷ 2 ∷ 2 ∷ []

abbrev spent : GcmDecryptReader crates
spent = record { src = record { bytes = []; failure = none }; gcm = none; left = 0 }

opened :
    opens crates sizes (new_reader crates sealed (start_gcm crates (zeros 16) (zeros 12)) 5)
    ≡ ok (1 ∷ 2 ∷ 3 ∷ 4 ∷ 5 ∷ [], spent)
unfolding open_read open_some check_tag decrypt read_some read_full tag start_gcm finalize encrypt
    update absorb_blocks update_open fill_partial ct_eq difference
opened = refl

opens-IsVerified_example :
    (got : List Bytes) × (tail : Bytes) × (sealed.bytes ≡ joined got ++ tail)
    × (1 ∷ 2 ∷ 3 ∷ 4 ∷ 5 ∷ [] ≡ (decrypts crates (start_gcm crates (zeros 16) (zeros 12)) got).1)
    × IsVerified crates (start_gcm crates (zeros 16) (zeros 12)) 5 sealed.bytes got tail spent
opens-IsVerified_example =
    opens-IsVerified crates (start_gcm crates (zeros 16) (zeros 12)) sealed 5 sizes
      (1 ∷ 2 ∷ 3 ∷ 4 ∷ 5 ∷ []) spent
      (omega arith, (omega arith, (omega arith, (omega arith, (omega arith, (omega arith, tt))))))
      (omega arith) opened

-- A compressor that stores.
abbrev status_of : Flush → Status
status_of finishing = done
status_of _ = okay

-- A flush without input makes a marker, each time.
abbrev made_of : Flush → Bytes → Bytes
made_of Flush.full [] = 0 ∷ 0 ∷ 0xFF ∷ 0xFF ∷ []
made_of _ input = input

abbrev miniz : Compressor
miniz = record {
  State = ℕ;
  new = 0;
  rounds = λ c input flush. suc (length input);
  compress = λ c input room flush. (status_of flush, length input, made_of flush input, c);
}

drop-all : (xs : Bytes) → drop (length xs) xs ≡ []
drop-all [] = refl
drop-all (x ∷ xs) = drop-all xs

settles : Settles miniz
settles = record {
  some_rounds = λ c input flush. omega arith;
  fewer_rounds = fewer;
  finishes = λ c input fine. absurd (cc);
}
  where
    is_empty-all : (xs : Bytes) → is_empty (drop (length xs) xs) ≡ true
    is_empty-all xs = ap is_empty (drop-all xs)

    fewer :
        (c : ℕ) (input : Bytes) (flush : Flush)
        → status_of flush ≡ okay
        → 0 < length input + length (made_of flush input)
        → HasMore input flush (length input) (length (made_of flush input))
        → suc (length (drop (length input) input)) < suc (length input)
    fewer c [] Flush.full fine progress (inl left) = absurd (cc)
    fewer c [] Flush.full fine progress (inr (inl large)) = absurd (omega (arith, large))
    fewer c [] Flush.full fine progress (inr (inr e)) = absurd (cc)
    fewer c [] Flush.no_flush fine progress more = absurd (omega (arith, progress))
    fewer c [] finishing fine progress more = absurd (cc)
    fewer c (x ∷ input) flush fine progress more =
        let e = ap length (drop-all (x ∷ input)) in omega (arith, e)

abbrev at_first : Output miniz (λ b. false) kept × Held miniz (λ b. false) kept
at_first = (record { dst = []; comp = 0 }, record { buf = 7 ∷ []; compressing = false })

writes-joined_example :
    Same.writes miniz (λ b. false) kept (holding miniz (λ b. false) kept at_first 1) pieces
    ≡ write miniz (λ b. false) kept (holding miniz (λ b. false) kept at_first 1) (joined pieces)
writes-joined_example = writes-joined miniz (λ b. false) kept at_first 1 pieces (omega arith)

pump-HasEnded_example :
    Refuses HasEnded (pump miniz (λ b. false) kept at_first.0 (1 ∷ 2 ∷ 3 ∷ []) finishing)
pump-HasEnded_example =
    pump-HasEnded miniz settles (λ b. false) kept (λ s b. tt) at_first.0 (1 ∷ 2 ∷ 3 ∷ []) finishing

-- A zip writer that keeps the bytes of its last member.
abbrev zip : ZipOut
zip = record {
  State = Bytes;
  new = [];
  start_file = λ s name options. ok [];
  write_all = λ s b. ok (s ++ b);
  finish = λ s. ok s;
}

abbrev plain_package : Source
plain_package = record { bytes = 1 ∷ 2 ∷ 3 ∷ []; failure = none }

-- Three bytes as a stored block, and their tag.
abbrev payload : Bytes
payload = 7 ∷ 0 ∷ 3 ∷ 0 ∷ 252 ∷ 255 ∷ 1 ∷ 2 ∷ 3 ∷ zeros 16

written_payload :
    write_payload crates miniz (λ b. true) zip host (zeros 16) (zeros 12) plain_package 3 (7 ∷ [])
    ≡ ok payload
unfolding write_payload new_gcm new_sealer adaptive new_deflater pump_input write gather finish
    release release_stored flush_before store blocks stored_header pump pump_loop turn_ends seal_all
    seal_loop seal encrypt finish_seal tag start_gcm finalize update absorb_blocks update_open
    fill_partial chunk_buffer read_some
written_payload = refl

write_payload-opens_example :
    (ciphertext stored plain : Bytes) × (length plain_package.bytes ≡ 3)
    × (deflated miniz (λ b. true) plain_package.bytes ≡ ok plain)
    × (payload ≡ 7 ∷ [] ++ (ciphertext ++ stored))
    × ((rest : Bytes)
        → gcm_verify crates
            (zeros 16)
            (zeros 12)
            (record { bytes = ciphertext ++ (stored ++ rest); failure = none })
            (length ciphertext)
          ≡ ok true)
    × ((others : List Bytes)
        → joined others ≡ ciphertext
        → (decrypts crates (start_gcm crates (zeros 16) (zeros 12)) others).1 ≡ plain)
write_payload-opens_example =
    write_payload-opens crates miniz (λ b. true) zip host runs_on block_by_block sixteen (λ s. s)
      (λ s next b h. sym (ok-injective h)) (zeros 16) (zeros 12) plain_package 3 (7 ∷ []) payload
      written_payload
