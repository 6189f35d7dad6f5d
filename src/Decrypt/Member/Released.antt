-- ===== src/Decrypt/Member/Released.antt =====
-- src/decrypt_stream.rs: what is written of a wholesome package.
use odf_crypto.Prelude.{
  ℕ, zero, suc, ◌+◌, ◌≤◌, ◌<◌, Bool, true, false, Option, none, some, [], ◌∷◌, ◌++◌, ◌≡◌, refl, sym,
  ap, ◌∙◌, arith, Str, Bytes, is_empty, length, length-append, zeros, Bool-cases, inl, inr, Result,
  ok, map_err, >>=-ok, ok-injective,
}
use mathlib.Core.List.{append_assoc, append-nil}
use odf_crypto.Types.{EntryEncryption}
use odf_crypto.Classify.Members.{Archive}
use odf_crypto.Decrypt.Ceilings.{DecryptLimits}
use odf_crypto.Decrypt.Screen.{member_for_archive, no_member}
use odf_crypto.Decrypt.Shape.{Sizes, declared, screen_shape}
use odf_crypto.Decrypt.Plan.{member_shape}
use odf_crypto.Decrypt.Keys.{Crypto}
use odf_crypto.Decrypt.Keys.Candidates.{candidates, IsFirstAccepted, find_key-first}
use odf_crypto.Stream.Source.{Source}
use odf_crypto.Stream.Sink.{Sink, chunk_buffer}
use odf_crypto.Stream.Gcm.{AesCrates, chunk, new_gcm}
use odf_crypto.Stream.Gcm.Seal.{RunsOn}
use odf_crypto.Stream.Sealing.Sealed.{Appends}
use odf_crypto.Stream.Opening.{GcmDecryptReader, new_reader}
use odf_crypto.Stream.Reader.{Reader}
use odf_crypto.Stream.Inflate.{Decompressor, fresh, with_tap, inflate_window, inflate_read}
use odf_crypto.Stream.Inflate.Turns.{Documented, IsSound}
use odf_crypto.Stream.Inflate.Exact.{fresh-IsSound, inflate_read-Released}
use odf_crypto.Decrypt.Member.{
  read_error_with, fault_error, buffer, ct_len_of, Openings, accepts_tag, gcm_key, gcm_member,
  drain, ensure_end, open_after_iv, or_error, plain_reader, no_tap, Inflating, copy_loop, copy_out,
  wholesome_to,
}
use odf_crypto.Decrypt.Errors.{DecryptError}
use odf_crypto.Decrypt.Member.Verified.{IsAuthentic, release-IsAuthentic}
use odf_crypto.Decrypt.Member.Plain.{map_err-ok, plain_rest, plain_reader-Gives}

granted :
    (can_reserve : ℕ → Bool) (b : Bytes)
    → chunk_buffer can_reserve inflate_window ≡ ok b
    → b ≡ zeros inflate_window
unfolding chunk_buffer
granted can_reserve b h = elim (Bool-cases (can_reserve inflate_window)) [
  | inl e ↦ let g = rw (chunk_buffer, e) at h in sym (ok-injective g)
  | inr e ↦ let g = rw (chunk_buffer, e) at h in absurd (cc g)
]

or_error-some :
    {A : Type 0} (found : Option A) (e : DecryptError) (a : A)
    → or_error found e ≡ ok a
    → found ≡ some a
or_error-some none e a h = absurd (cc)
or_error-some (some b) e a h = ap some (ok-injective h)

module _ (crates : AesCrates) (crypto : Crypto) where
  -- The key of the verify pass is the first that the member's tag accepts.
  abbrev pub OpensFirst :
      (Bytes → Result Str Source) → EntryEncryption → ℕ → Str → DecryptLimits → Bytes → Type 0
  OpensFirst opening row len password limits key =
      IsFirstAccepted crypto row limits (accepts_tag crates crypto opening row (ct_len_of len))
        (candidates crypto row.start_key password) key

  gcm_key-OpensFirst :
      (opening : Bytes → Result Str Source) (row : EntryEncryption) (len : ℕ) (password : Str)
      (limits : DecryptLimits) (key : Bytes)
      → gcm_key crates crypto opening row len password limits ≡ ok key
      → OpensFirst opening row len password limits key
  unfolding gcm_key
  gcm_key-OpensFirst opening row len password limits key h =
      (find_key-first crypto row limits (accepts_tag crates crypto opening row (ct_len_of len))
          password key).0
        h

module _ (crates : AesCrates) (crypto : Crypto) (laws : RunsOn crates) (miniz : Decompressor)
    (documented : Documented miniz) (sink : Sink) (held : sink.State → Bytes)
    (appends : Appends sink held) where
  abbrev I : Type 0
  I = Inflating crates crypto miniz sink

  abbrev reader : Reader
  reader = plain_reader crates crypto

  abbrev tap : Sink
  tap = no_tap crates crypto miniz sink

  abbrev Sound : I → Type 0
  Sound = IsSound miniz reader tap

  -- What was written between two states of the writer, from a reader on.
  record Copied (r last : I) (w w' : sink.State) : Type 0 where
    pub out : Bytes
    pub adds : held w' ≡ held w ++ out
    pub exact : r.produced + length out ≡ r.expected + r.pending_len
    pub within : r.expected ≤ r.limit

  copy_loop-Copied :
      (fuel : ℕ) (limits : DecryptLimits) (r last : I) (w w' : sink.State)
      → Sound r
      → r.expected + r.pending_len < r.produced + fuel
      → copy_loop crates crypto miniz sink fuel limits r w ≡ ok (w', last)
      → Copied r last w w'
  unfolding copy_loop
  copy_loop-Copied zero limits r last w w' sound enough h =
      absurd (omega (arith, enough, sound.within_expected))
  copy_loop-Copied (suc fuel) limits r last w w' sound enough h =
      let (got, more, e) =
        >>=-ok (map_err (read_error_with limits) (inflate_read miniz reader tap chunk r)) _ h in
      let (t, over) =
        inflate_read-Released miniz reader tap documented (λ (s : Bytes). s)
          (λ s next b k. sym (ok-injective k)) (plain_rest crates crypto laws)
          (plain_reader-Gives crates crypto laws) chunk r got.1 got.0 sound
          (map_err-ok (read_error_with limits) _ e) in
      elim (Bool-cases (is_empty got.0)) [
        | inl none_got ↦
            let g = rw none_got at more in
            let nothing = is_empty-length got.0 none_got in
            let (ended, idle) = over (omega arith) nothing in
            record {
              out = [];
              adds =
                  ap (λ (q : sink.State × I). held q.0) (sym (ok-injective g))
                  ∙ sym (append-nil (held w));
              exact = omega (arith, t.counted, ended, idle, nothing, t.same_expected);
              within = omega (arith, t.sound.within_limit, ended, t.same_expected, t.same_limit);
            }
        | inr some_got ↦
            let g = rw some_got at more in
            let (written, later, e2) = >>=-ok (map_err _ (sink.write_all w got.0)) _ g in
            let one = nonempty-length got.0 some_got in
            let c =
              copy_loop-Copied fuel limits got.1 last written w' t.sound
                (omega (arith, t.counted, one, enough, t.same_expected)) later in
            record {
              out = got.0 ++ c.out;
              adds =
                  c.adds
                  ∙ ap (λ b. b ++ c.out) (appends w written got.0 (map_err-ok _ _ e2))
                  ∙ append_assoc (held w) got.0 c.out;
              exact = omega (arith, t.counted, c.exact, t.same_expected, length-append got.0 c.out);
              within = omega (arith, c.within, t.same_expected, t.same_limit);
            }
      ]
    where
      is_empty-length : (b : Bytes) → is_empty b ≡ true → length b ≡ 0
      is_empty-length [] e = refl
      is_empty-length (x ∷ b) e = absurd (cc)

      nonempty-length : (b : Bytes) → is_empty b ≡ false → 1 ≤ length b
      nonempty-length [] e = absurd (cc)
      nonempty-length (x ∷ b) e = omega arith

  with_tap-fresh :
      (can_reserve : ℕ → Bool) (src : GcmDecryptReader crates) (expected limit : ℕ) (r : I)
      → with_tap miniz reader tap can_reserve src expected limit [] ≡ ok r
      → r ≡ fresh miniz reader tap src expected limit []
  unfolding with_tap
  with_tap-fresh can_reserve src expected limit r h =
      let (input, h1, e1) = >>=-ok (chunk_buffer can_reserve chunk) _ h in
      let (window, h2, e2) = >>=-ok (chunk_buffer can_reserve inflate_window) _ h1 in
      sym (ok-injective h2)
      ∙ ap (λ (b : Bytes). record (fresh miniz reader tap src expected limit []) { window = b })
          (granted can_reserve window e2)

  -- Some bytes, as many as expected and no more than the limit, are added.
  copy_out-exact :
      (plain : GcmDecryptReader crates) (w : sink.State) (expected : ℕ) (limits : DecryptLimits)
      (q : sink.State × GcmDecryptReader crates)
      → copy_out crates crypto miniz sink plain w expected limits ≡ ok q
      → (out : Bytes) × (held q.0 ≡ held w ++ out)
        × (length out ≡ expected)
        × (expected ≤ limits.max_output_bytes)
  unfolding copy_out
  copy_out-exact plain w expected limits q h =
      let (inflate, h1, e1) =
        >>=-ok
          (map_err (fault_error limits) (
            with_tap miniz reader tap crypto.host.can_reserve plain expected limits.max_output_bytes
              []))
          _ h in
      let (buf, h2, e2) = >>=-ok (buffer crypto.host.can_reserve) _ h1 in
      let (copied, last, e3) =
        >>=-ok (copy_loop crates crypto miniz sink (expected + 2) limits inflate w) _ h2 in
      let start =
        with_tap-fresh crypto.host.can_reserve plain expected limits.max_output_bytes inflate
          (map_err-ok (fault_error limits) _ e1) in
      let first = fresh miniz reader tap plain expected limits.max_output_bytes [] in
      let c =
        copy_loop-Copied (expected + 2) limits first copied.1 w copied.0
          (fresh-IsSound miniz reader tap plain expected limits.max_output_bytes []) (omega arith)
          (ap (λ (r : I). copy_loop crates crypto miniz sink (expected + 2) limits r w) (sym start)
            ∙ e3) in
      (
        c.out,
        ap (λ (p : sink.State × GcmDecryptReader crates). held p.0) (sym (ok-injective last))
            ∙ c.adds,
        omega (arith, c.exact),
        c.within,
      )

  gcm_member-released :
      (w : sink.State) (expected : ℕ) (openings : Openings) (row : EntryEncryption) (len : ℕ)
      (password : Str) (limits : DecryptLimits) (w' : sink.State)
      → gcm_member crates crypto
          (λ plain. copy_out crates crypto miniz sink plain w expected limits)
          openings
          row
          len
          password
          limits
        ≡ ok w'
      → (key out : Bytes) × OpensFirst crates crypto openings.verify_pass row len password limits
          key
        × IsAuthentic crates crypto openings.release_pass row len key
        × (held w' ≡ held w ++ out)
        × (length out ≡ expected)
        × (expected ≤ limits.max_output_bytes)
  unfolding gcm_member
  gcm_member-released w expected openings row len password limits w' h =
      let (key, h1, e1) =
        >>=-ok (gcm_key crates crypto openings.verify_pass row len password limits) _ h in
      let (file, h2, e2) = >>=-ok (open_after_iv openings.release_pass) _ h1 in
      let (gcm, h3, e3) = >>=-ok (or_error (new_gcm crates key row.iv) _) _ h2 in
      let plain = new_reader crates file gcm (ct_len_of len) in
      let (result, h4, e4) =
        >>=-ok (copy_out crates crypto miniz sink plain w expected limits) _ h3 in
      let (drained, h5, e5) = >>=-ok (drain crates crypto result.1) _ h4 in
      let (ended, h6, e6) = >>=-ok (ensure_end drained.src) _ h5 in
      let (out, adds, exact, within) = copy_out-exact plain w expected limits result e4 in
      (
        key,
        out,
        gcm_key-OpensFirst crates crypto openings.verify_pass row len password limits key e1,
        release-IsAuthentic crates crypto laws miniz sink openings.release_pass row len key file gcm
            w expected limits result drained e2 (or_error-some (new_gcm crates key row.iv) _ gcm e3)
            e4 e5 e6,
        ap held (sym (ok-injective h6)) ∙ adds,
        exact,
        within,
      )

  -- Where a wholesome package is decrypted without an error, what is added to the writer has the
  -- declared size of its row, which is within the output limit; the key is that of the first start
  -- key of the password for which the tag of the row's member verifies, in a pass of its own, and
  -- what the second opening gives behind the vector is a ciphertext of the member's length and a
  -- tag that verifies under that key as well; it is assumed that the writer adds what it is given,
  -- that the key stream runs on from call to call and restores what it was applied to, and that the
  -- decompressor's crate does what it documents.
  pub wholesome_to-exact :
      (lossy : Bytes → Str) (archive : Archive) (openings : ℕ → Openings) (row_index : ℕ)
      (row : EntryEncryption) (w w' : sink.State) (password : Str) (limits : DecryptLimits)
      (sizes : Sizes)
      → wholesome_to crates crypto miniz sink lossy archive openings row_index row w password limits
          sizes
        ≡ ok w'
      → (found : ℕ × Str) × (shape : ℕ × Bytes) × (key out : Bytes) × (member_for_archive lossy
            archive row.path
            (no_member row_index)
          ≡ ok found)
        × (member_shape archive found.0 ≡ ok shape)
        × OpensFirst crates crypto (openings found.0).verify_pass row shape.0 password limits key
        × IsAuthentic crates crypto (openings found.0).release_pass row shape.0 key
        × (held w' ≡ held w ++ out)
        × (declared sizes row.size ≡ ok (length out))
        × (length out ≤ limits.max_output_bytes)
  unfolding wholesome_to
  wholesome_to-exact lossy archive openings row_index row w w' password limits sizes h =
      let (expected, h1, e1) = >>=-ok (declared sizes row.size) _ h in
      let (found, h2, e2) =
        >>=-ok (member_for_archive lossy archive row.path (no_member row_index)) _ h1 in
      let (shape, h3, e3) = >>=-ok (member_shape archive found.0) _ h2 in
      let (screened, h4, e4) = >>=-ok (screen_shape row shape.0 shape.1) _ h3 in
      let (key, out, accepted, authentic, adds, exact, within) =
        gcm_member-released w expected (openings found.0) row shape.0 password limits w' h4 in
      (
        found,
        shape,
        key,
        out,
        e2,
        e3,
        accepted,
        authentic,
        adds,
        e1 ∙ ap ok (sym exact),
        omega (arith, exact, within),
      )
