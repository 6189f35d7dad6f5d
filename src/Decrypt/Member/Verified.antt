-- ===== src/Decrypt/Member/Verified.antt =====
-- src/decrypt_stream.rs: the tag of the release pass.
use odf_crypto.Prelude.{
  ℕ, zero, suc, ◌+◌, ◌≤◌, true, false, some, Option-cases, List, [], ◌∷◌, ◌++◌, ◌≡◌, refl, sym, ap,
  ◌∙◌, subst, arith, Str, Bytes, ◌==◌, is_empty, length, Option, Bool-cases, inl, inr, Result, ok,
  map_err, >>=-ok, guard-ok, ok-injective, leb, if◌then◌else◌,
}
use mathlib.Core.List.{append-nil}
use odf_crypto.Types.{EntryEncryption}
use odf_crypto.Decrypt.Ceilings.{DecryptLimits}
use odf_crypto.Decrypt.Keys.{Crypto}
use odf_crypto.Stream.Source.{Source, read_full, read_some, unexpected_eof}
use odf_crypto.Stream.Bits.{ct_eq}
use odf_crypto.Stream.Sink.{Sink, chunk_buffer}
use odf_crypto.Stream.Ghash.Whole.{joined}
use odf_crypto.Stream.Gcm.{AesCrates, GcmStream, chunk, decrypt, new_gcm, tag}
use odf_crypto.Stream.Gcm.Seal.{RunsOn, decrypts}
use odf_crypto.Stream.Opening.{GcmDecryptReader, new_reader, open_some, open_read}
use odf_crypto.Stream.Opening.Released.{Released, open_read-Released}
use odf_crypto.Stream.Opening.Ends.{to_come, check_tag-to_come, open_read-to_come}
use odf_crypto.Stream.Reader.{stream_error}
use odf_crypto.Stream.Inflate.{Decompressor, inflate_window, with_tap, inflate_read}
use odf_crypto.Stream.Inflate.Kept.{inflate_read-Keeps}
use odf_crypto.Decrypt.Member.{
  read_error, read_error_with, fault_error, buffer, ct_len_of, drain, drain_loop, ensure_end,
  open_after_iv, plain_reader, no_tap, Inflating, copy_loop, copy_out,
}
use odf_crypto.Decrypt.Member.Plain.{map_err-ok}

-- A source that has ended gives nothing more.
read_full-none :
    (bytes : Bytes) (failure : Option Str) (got : Bytes) (rest : Source)
    → read_full 1 (record { bytes = bytes; failure = failure }) ≡ ok (got, rest)
    → is_empty got ≡ true
    → bytes ≡ []
unfolding read_full
read_full-none [] failure got rest h e = refl
read_full-none (b ∷ bytes) failure got rest h e =
    let long : leb 1 (length (b ∷ bytes)) ≡ true = ground arith in
    let h = rw (long, read_full) at h in
    absurd (cc (ap (λ (q : Bytes × Source). is_empty q.0) (ok-injective h), e))

ensure_end-none : (src : Source) {u : Unit} → ensure_end src ≡ ok u → src.bytes ≡ []
unfolding ensure_end
ensure_end-none src h =
    let (one, h1, e1) = >>=-ok (map_err read_error (read_full 1 src)) _ h in
    elim (Bool-cases (is_empty one.0)) [
      | inl empty ↦
          read_full-none src.bytes src.failure one.0 one.1 (map_err-ok read_error _ e1) empty
      | inr longer ↦ let g = rw longer at h1 in absurd (cc g)
    ]

module _ (crates : AesCrates) (crypto : Crypto) where
  -- What an opening gives behind the vector is a ciphertext of the expected length and a tag, and
  -- they verify under the key.
  abbrev pub IsAuthentic : Result Str Source → EntryEncryption → ℕ → Bytes → Type 0
  IsAuthentic opening row len key =
      (file : Source) × (gcm : GcmStream crates) × (pieces : List Bytes) × (stored : Bytes)
      × (open_after_iv opening ≡ ok file)
      × (new_gcm crates key row.iv ≡ some gcm)
      × (file.bytes ≡ joined pieces ++ stored)
      × (length (joined pieces) ≡ ct_len_of len)
      × (ct_eq (tag crates (decrypts crates gcm pieces).0) stored ≡ true)

  abbrev R : Type 0
  R = GcmDecryptReader crates

  module _ (laws : RunsOn crates) where
    -- A read into a buffer with room gives nothing only behind the tag.
    open_read-over :
        (n : ℕ) (r : R) (q : Bytes × R)
        → 1 ≤ n
        → open_read crates n r ≡ ok q
        → is_empty q.0 ≡ true
        → to_come crates q.1 ≡ 0
    unfolding open_read open_some decrypt
    open_read-over n r q room h empty =
        let nonzero : (n == 0) ≡ false = ground arith in
        elim (Option-cases r.gcm) [
          | inl e ↦
              subst (λ (p : Bytes × R). to_come crates p.1 ≡ 0)
                (ok-injective (rw (nonzero, e, open_read) at h)) (rw e refl)
          | inr (gcm, e) ↦ elim (Bool-cases (r.left == 0)) [
            | inl over ↦ check_tag-to_come crates r gcm q (rw (nonzero, e, over, open_read) at h)
            | inr more ↦
                let m = if leb r.left n then r.left else n in
                let g : open_some crates n r gcm ≡ ok q = rw (nonzero, e, more, open_read) at h in
                let (got, rest, first) = >>=-ok (read_some m r.src) _ g in
                let (some_got, last) = guard-ok (is_empty got.0) unexpected_eof _ rest in
                absurd (
                  kept gcm got.0 some_got
                    (ap (λ (p : Bytes × R). is_empty p.0) (ok-injective last) ∙ empty))
          ]
        ]
      where
        kept :
            (gcm : GcmStream crates) (b : Bytes)
            → is_empty b ≡ false
            → is_empty (crates.apply_keystream gcm.ctr b).1 ≡ true
            → ⊥
        kept gcm b full e = cc (
          full,
          sym (laws.restores gcm.ctr b)
              ∙ ap (λ x. (crates.apply_keystream gcm.ctr x).1) (no_bytes _ e)
              ∙ ap (λ (p : crates.Ctr × Bytes). p.1) (laws.empty gcm.ctr),
        )
          where
            no_bytes : (x : Bytes) → is_empty x ≡ true → x ≡ []
            no_bytes [] k = refl
            no_bytes (y ∷ x) k = absurd (cc)

    module _ (s : GcmStream crates) (ct_len : ℕ) (bytes : Bytes) where
      -- A reader that comes from a new one by reads without an error.
      abbrev IsReleased : R → Type 0
      IsReleased r = (out : Bytes) × Released crates s ct_len bytes out r

      read-IsReleased :
          (n : ℕ) (r next : R) (got : Bytes)
          → IsReleased r
          → (plain_reader crates crypto).read n r ≡ ok (got, next)
          → IsReleased next
      read-IsReleased n r next got (out, released) h = (
        out ++ got,
        open_read-Released crates s ct_len bytes n out r (got, next) released
            (map_err-ok stream_error _ h),
      )

      drain_loop-IsReleased :
          (fuel : ℕ) (r last : R)
          → to_come crates r ≤ fuel
          → IsReleased r
          → drain_loop crates crypto fuel r ≡ ok last
          → IsReleased last × (to_come crates last ≡ 0)
      unfolding drain_loop
      drain_loop-IsReleased zero r last enough k h =
          subst (λ (q : R). IsReleased q × (to_come crates q ≡ 0)) (ok-injective h)
            (k, omega (arith, enough))
      drain_loop-IsReleased (suc fuel) r last enough k h =
          let (got, more, e) = >>=-ok (map_err read_error (open_read crates chunk r)) _ h in
          let e' = map_err-ok read_error _ e in
          let here = open_read-Released crates s ct_len bytes chunk k.0 r got k.1 e' in
          elim (Bool-cases (is_empty got.0)) [
            | inl empty ↦
                subst (λ (q : R). IsReleased q × (to_come crates q ≡ 0))
                  (ok-injective (rw empty at more))
                  ((k.0 ++ got.0, here), open_read-over chunk r got (omega arith) e' empty)
            | inr some_got ↦
                drain_loop-IsReleased fuel got.1 last
                  (omega (arith, enough, open_read-to_come crates chunk r got (omega arith) e'))
                  (k.0 ++ got.0, here) (rw some_got at more)
          ]

      module _ (miniz : Decompressor) (sink : Sink) where
        abbrev I : Type 0
        I = Inflating crates crypto miniz sink

        copy_loop-IsReleased :
            (fuel : ℕ) (limits : DecryptLimits) (r : I) (w : sink.State) (q : sink.State × I)
            → IsReleased r.src
            → copy_loop crates crypto miniz sink fuel limits r w ≡ ok q
            → IsReleased q.1.src
        unfolding copy_loop
        copy_loop-IsReleased zero limits r w q k h =
            subst (λ (p : sink.State × I). IsReleased p.1.src) (ok-injective h) k
        copy_loop-IsReleased (suc fuel) limits r w q k h =
            let (got, more, e) =
              >>=-ok
                (map_err (read_error_with limits) (
                  inflate_read miniz (plain_reader crates crypto) (no_tap crates crypto miniz sink)
                    chunk r))
                _ h in
            let here =
              inflate_read-Keeps (plain_reader crates crypto) IsReleased read-IsReleased miniz
                (no_tap crates crypto miniz sink) chunk r got k
                (map_err-ok (read_error_with limits) _ e) in
            elim (Bool-cases (is_empty got.0)) [
              | inl none_got ↦
                  subst (λ (p : sink.State × I). IsReleased p.1.src)
                    (ok-injective (rw none_got at more)) here
              | inr some_got ↦
                  let (written, later, e2) =
                    >>=-ok (map_err _ (sink.write_all w got.0)) _ (rw some_got at more) in
                  copy_loop-IsReleased fuel limits got.1 written q here later
            ]

        copy_out-IsReleased :
            (plain : R) (w : sink.State) (expected : ℕ) (limits : DecryptLimits)
            (q : sink.State × R)
            → IsReleased plain
            → copy_out crates crypto miniz sink plain w expected limits ≡ ok q
            → IsReleased q.1
        unfolding copy_out with_tap
        copy_out-IsReleased plain w expected limits q k h =
            let (inflate, h1, e1) =
              >>=-ok
                (map_err (fault_error limits) (
                  with_tap miniz (plain_reader crates crypto) (no_tap crates crypto miniz sink)
                    crypto.host.can_reserve plain expected limits.max_output_bytes []))
                _ h in
            let (input, g1, f1) =
              >>=-ok (chunk_buffer crypto.host.can_reserve chunk) _
                (map_err-ok (fault_error limits) _ e1) in
            let (window, g2, f2) =
              >>=-ok (chunk_buffer crypto.host.can_reserve inflate_window) _ g1 in
            let (buf, h2, e2) = >>=-ok (buffer crypto.host.can_reserve) _ h1 in
            let (copied, last, e3) =
              >>=-ok (copy_loop crates crypto miniz sink (expected + 2) limits inflate w) _ h2 in
            subst (λ (p : sink.State × R). IsReleased p.1) (ok-injective last)
              (copy_loop-IsReleased (expected + 2) limits inflate w copied
                (subst (λ (i : I). IsReleased i.src) (ok-injective g2) k) e3)

    -- The release, the draining and the test of the end, where none of them fails, have seen a
    -- ciphertext and a tag that verify.
    pub release-IsAuthentic :
        (miniz : Decompressor) (sink : Sink) (opening : Result Str Source) (row : EntryEncryption)
        (len : ℕ) (key : Bytes) (file : Source) (gcm : GcmStream crates) (w : sink.State)
        (expected : ℕ) (limits : DecryptLimits) (q : sink.State × R) (drained : R) {u : Unit}
        → open_after_iv opening ≡ ok file
        → new_gcm crates key row.iv ≡ some gcm
        → copy_out crates crypto miniz sink
            (new_reader crates file gcm (ct_len_of len))
            w
            expected
            limits
          ≡ ok q
        → drain crates crypto q.1 ≡ ok drained
        → ensure_end drained.src ≡ ok u
        → IsAuthentic opening row len key
    unfolding drain
    release-IsAuthentic miniz sink opening row len key file gcm w expected limits q drained opened
          cipher copied drain_ok ended =
        let start : Released crates gcm (ct_len_of len) file.bytes []
            (new_reader crates file gcm (ct_len_of len)) =
          ([], file.bytes, refl, refl, inl (refl, refl, omega arith)) in
        let k =
          copy_out-IsReleased gcm (ct_len_of len) file.bytes miniz sink
            (new_reader crates file gcm (ct_len_of len)) w expected limits q ([], start) copied in
        let (buf, h1, e1) = >>=-ok (buffer crypto.host.can_reserve) _ drain_ok in
        let (released, over) =
          drain_loop-IsReleased gcm (ct_len_of len) file.bytes (q.1.left + 2) q.1 drained (few q.1)
            k h1 in
        let (pieces, tail, cut, plain, state) = released.1 in
        elim state [
          | inl inside ↦ absurd (
              let busy : to_come crates drained ≡ suc drained.left = rw (inside.0) refl in
              omega (arith, busy, over))
          | inr (closed, whole, stored, behind, matches) ↦ (
            file,
            gcm,
            pieces,
            stored,
            opened,
            cipher,
            cut
                ∙ ap (λ b. joined pieces ++ b)
                    (behind
                      ∙ ap (λ b. stored ++ b) (ensure_end-none drained.src ended)
                      ∙ append-nil stored),
            whole,
            matches,
          )
        ]
      where
        few : (r : R) → to_come crates r ≤ r.left + 2
        few r = elim (Option-cases r.gcm) [
          | inl e ↦ let n : to_come crates r ≡ 0 = rw e refl in omega (arith, n)
          | inr (g, e) ↦ let n : to_come crates r ≡ suc r.left = rw e refl in omega (arith, n)
        ]
