-- ===== src/Tests/Release.antt =====
-- src/decrypt_stream.rs on a concrete package of one member.
use odf_crypto.Prelude.{
  ℕ, Str, ◌≡◌, ◌≤◌, refl, none, [], ◌∷◌, ◌++◌, Bytes, codes, length, take, zeros, pos, ok, str_eq,
  as_bytes, utf8_char,
}
use odf_crypto.Types.{EntryEncryption, Kdf}
use odf_crypto.Classify.Members.{Archive}
use odf_crypto.Decrypt.Ceilings.{default_limits}
use odf_crypto.Decrypt.Errors.{try_zeroed}
use odf_crypto.Decrypt.Shape.{
  Sizes, declared, declared_size, screen_shape, cipher_accepts_key_len, screen_member,
}
use odf_crypto.Stream.Source.{Source, read_full, read_some}
use odf_crypto.Decrypt.Member.{
  Openings, accepts_tag, wholesome_to, gcm_member, gcm_key, open_after_iv, ensure_end, buffer,
  drain, drain_loop, copy_out, copy_loop, fault_error,
}
use odf_crypto.Decrypt.Member.Verified.{IsAuthentic}
use odf_crypto.Decrypt.Member.Released.{OpensFirst, wholesome_to-exact}
use odf_crypto.Decrypt.Screen.{member_for_archive, member_from, no_member}
use odf_crypto.Classify.Names.{member_matches_path, collapse_slashes}
use odf_crypto.Decrypt.Plan.{member_shape}
use odf_crypto.Decrypt.Keys.{find_key, attempt, derive_key, derive_with, check_iterations}
use odf_crypto.Kdf.{start_key}
use odf_crypto.Stream.Gcm.{gcm_verify, new_gcm, start_gcm, verify_loop, absorb, tag, decrypt, turn}
use odf_crypto.Stream.Ghash.{update, absorb_blocks, update_open, fill_partial, finalize}
use odf_crypto.Stream.Bits.{ct_eq, difference}
use odf_crypto.Stream.Sink.{chunk_buffer}
use odf_crypto.Stream.Opening.{open_read, open_some, check_tag}
use odf_crypto.Stream.Inflate.{
  with_tap, inflate_read, await, step, refill, tap_input, conclude, decompress_turn,
}
use odf_crypto.Stream.Reader.{fill, fill_loop}
use odf_crypto.Tests.Samples.{gcm_entry, file}
use odf_crypto.Tests.Keys.{crypto}
use odf_crypto.Tests.Stream.{crates, runs_on}
use odf_crypto.Tests.Readers.{copier, copier_documented, put_at, kept, kept-Appends}

abbrev iv : Bytes
iv = zeros 12

abbrev row : EntryEncryption
row = record gcm_entry {
  path = codes "encrypted-package";
  kdf = Kdf.pbkdf2 (pos 100000) (zeros 16);
  size = pos 2;
  iv = iv;
}

-- The vector, two bytes and the end marker, and the tag.
abbrev payload : Source
payload = record {
  bytes = zeros 12 ++ (5 ∷ 6 ∷ 0 ∷ []) ++ take 16 (codes "key" ++ zeros 16);
  failure = none;
}

abbrev archive : Archive
archive = ok (record (file (codes "encrypted-package") iv) { uncompressed_size = 31 }) ∷ []

abbrev openings : ℕ → Openings
openings index = record { verify_pass = λ k. ok payload; release_pass = ok payload }

abbrev two : Bytes
two = 9 ∷ 5 ∷ 6 ∷ []

released :
    wholesome_to crates crypto copier kept
      (λ b. b)
      archive
      openings
      0
      row
      (9 ∷ [])
      (codes "key")
      default_limits
      Sizes.streamed
    ≡ ok two
unfolding wholesome_to declared declared_size member_for_archive member_from member_matches_path
    member_shape screen_shape cipher_accepts_key_len screen_member gcm_member gcm_key find_key
    attempt derive_key derive_with check_iterations try_zeroed start_key accepts_tag open_after_iv
    read_full gcm_verify new_gcm start_gcm verify_loop absorb update absorb_blocks update_open
    fill_partial tag finalize ct_eq difference read_some ensure_end buffer chunk_buffer drain
    drain_loop open_read open_some check_tag decrypt copy_out with_tap copy_loop inflate_read await
    step refill fill fill_loop tap_input conclude collapse_slashes turn decompress_turn fault_error
    str_eq as_bytes utf8_char put_at
released = refl

wholesome_to-exact_example :
    (found : ℕ × Str) × (shape : ℕ × Bytes) × (key out : Bytes) × (member_for_archive
        (λ b. b)
        archive
        row.path
        (no_member 0)
      ≡ ok found)
    × (member_shape archive found.0 ≡ ok shape)
    × OpensFirst crates crypto
        (openings found.0).verify_pass
        row
        shape.0
        (codes "key")
        default_limits
        key
    × IsAuthentic crates crypto (openings found.0).release_pass row shape.0 key
    × (two ≡ (9 ∷ []) ++ out)
    × (declared Sizes.streamed (pos 2) ≡ ok (length out))
    × (length out ≤ default_limits.max_output_bytes)
wholesome_to-exact_example =
    wholesome_to-exact crates crypto runs_on copier copier_documented kept (λ s. s) kept-Appends
      (λ b. b) archive openings 0 row (9 ∷ []) two (codes "key") default_limits Sizes.streamed
      released
