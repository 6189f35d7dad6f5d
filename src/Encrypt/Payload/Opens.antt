-- ===== src/Encrypt/Payload/Opens.antt =====
-- src/encrypt_stream.rs: what `run` leaves in the payload's member opens again.
use odf_crypto.Prelude.{
  ℕ, zero, suc, ◌+◌, not, some, none, List, [], ◌∷◌, ◌++◌, ◌≡◌, refl, sym, ap, ◌∙◌, subst, Bool,
  true, Bytes, ◌==◌, is_empty, length, ◌||◌, Option, Bool-cases, inl, inr, Result, ok, err, map_err,
  ◌<◌, ◌≤◌, false, arith, take, drop, take-drop, length-append, ◌>>=◌, guard-ok, ok-injective,
  >>=-ok, Returns, Returns-ok, of_Returns,
}
use odf_crypto.Limits.{aes_gcm_iv_len}
use odf_crypto.Kdf.Argon2.{Host}
use odf_crypto.Stream.Source.{Source, read_some}
use odf_crypto.Stream.Sink.{Sink, StreamError, chunk_buffer}
use odf_crypto.Stream.Ghash.Absorbed.{BlockByBlock}
use odf_crypto.Stream.Ghash.Whole.{joined}
use odf_crypto.Stream.Gcm.{AesCrates, GcmStream, chunk, start_gcm, new_gcm, gcm_verify}
use odf_crypto.Stream.Gcm.Seal.{RunsOn, decrypts}
use odf_crypto.Stream.Sealing.{GcmEncryptWriter, new_sealer, seal_all, sealing}
use odf_crypto.Stream.Sealing.Sealed.{Appends, writes, written_opens}
use mathlib.Core.List.{append_assoc, append-nil}
use odf_crypto.Stream.Deflate.{
  Compressor, DeflateWriter, Held, no_flush, adaptive, new_deflater, pump, gather, write, finish,
}
use odf_crypto.Stream.Deflate.Same
use odf_crypto.Stream.Deflate.Same.{writes-joined}
use odf_crypto.Stream.Deflate.Logged.{
  log, new_adaptive, deflated, SameWriter, same, write-SameWriter, finish-SameWriter,
}
use odf_crypto.Decrypt.Member.Plain.{read_some-taken}
use odf_crypto.Encrypt.Payload.{
  ZipOut, out_sink, Deflater, deflate_all, pump_input, write_payload, fault_error, write_error,
  or_key_error,
}

or_key_error-ok : {A : Type 0} (o : Option A) {a : A} → or_key_error o ≡ ok a → o ≡ some a
or_key_error-ok (some b) h = ap some (ok-injective h)
or_key_error-ok none h = cc

map_err-ok : {E F A : Type 0} (f : E → F) (r : Result E A) {a : A} → map_err f r ≡ ok a → r ≡ ok a
map_err-ok f (ok b) h = ap ok (ok-injective h)
map_err-ok f (err e) h = cc

joined-snoc : (ds : List Bytes) (d : Bytes) → joined (ds ++ d ∷ []) ≡ joined ds ++ d
joined-snoc [] d = append-nil d
joined-snoc (x ∷ ds) d = ap (λ b. x ++ b) (joined-snoc ds d) ∙ sym (append_assoc x (joined ds) d)

module _ (crates : AesCrates) (miniz : Compressor) (carries_no_more : Bytes → Bool) (out : ZipOut)
    (host : Host) where
  abbrev zip_sink : Sink
  zip_sink = out_sink crates miniz carries_no_more out host

  abbrev Sealer : Type 0
  Sealer = GcmEncryptWriter crates zip_sink

  writes-snoc :
      (w w' next : Sealer) (ds : List Bytes) (d : Bytes)
      → writes crates zip_sink w ds ≡ ok w'
      → seal_all crates zip_sink w' d ≡ ok next
      → writes crates zip_sink w (ds ++ (d ∷ [])) ≡ ok next
  writes-snoc w w' next [] d h k = rw (ok-injective h, k) refl
  writes-snoc w w' next (x ∷ ds) d h k =
      let (middle, rest, first) = >>=-ok (seal_all crates zip_sink w x) _ h in
      rw first (writes-snoc middle w' next ds d rest k)

  -- Some writes lead to the second, and these are their bytes.
  abbrev Leads : Sealer → Sealer → Bytes → Type 0
  Leads w w' kept = (ds : List Bytes) × (writes crates zip_sink w ds ≡ ok w') × (joined ds ≡ kept)

  Leads-seal_all :
      (w w' : Sealer) (kept bytes : Bytes)
      → Leads w w' kept
      → Returns (λ next. Leads w next (kept ++ bytes)) (seal_all crates zip_sink w' bytes)
  Leads-seal_all w w' kept bytes (ds, h, their) =
      of_Returns (λ next. Leads w next (kept ++ bytes)) (seal_all crates zip_sink w' bytes)
        (λ next k. (
          ds ++ (bytes ∷ []),
          writes-snoc w w' next ds bytes h k,
          joined-snoc ds bytes ∙ ap (λ b. b ++ bytes) their,
        ))

  module _ (w : Sealer) where
    abbrev Logged :
        Deflater crates miniz carries_no_more out host
        → DeflateWriter miniz carries_no_more log
        → Type 0
    Logged = SameWriter miniz carries_no_more (sealing crates zip_sink) (Leads w) (Leads-seal_all w)

    adaptive-Logged :
        (d : Deflater crates miniz carries_no_more out host)
        → adaptive miniz carries_no_more (sealing crates zip_sink) host.can_reserve w ≡ ok d
        → Logged d (new_adaptive miniz carries_no_more)
    unfolding adaptive new_deflater
    adaptive-Logged d h =
        let (made, h1, e1) =
          >>=-ok (new_deflater miniz carries_no_more (sealing crates zip_sink) host.can_reserve w) _
            h in
        let (out_buffer, h2, e2) = >>=-ok (chunk_buffer host.can_reserve chunk) _ e1 in
        let (buffer, h3, e3) = >>=-ok (chunk_buffer host.can_reserve chunk) _ h1 in
        subst
          (λ (m : Deflater crates miniz carries_no_more out host).
            record m { held = some (record { buf = []; compressing = false }) } ≡ d
            → Logged d (new_adaptive miniz carries_no_more))
          (ok-injective h2)
          (λ k.
            subst
              (λ (m : Deflater crates miniz carries_no_more out host).
                Logged m (new_adaptive miniz carries_no_more))
              k (same (refl, ([], refl, refl)) (refl, refl)))
          (ok-injective h3)

    -- The bytes of the source reach the deflater in some pieces, all of them.
    pump_input-Logged :
        (fuel : ℕ) (src : Source) (d pumped : Deflater crates miniz carries_no_more out host)
        (f : DeflateWriter miniz carries_no_more log)
        → Logged d f
        → length src.bytes < fuel
        → pump_input crates miniz carries_no_more out host fuel src d ≡ ok pumped
        → (pieces : List Bytes) × (g : DeflateWriter miniz carries_no_more log) × (joined pieces
            ≡ src.bytes)
          × (Same.writes miniz carries_no_more log f pieces ≡ ok g)
          × Logged pumped g
    unfolding pump_input
    pump_input-Logged zero src d pumped f l enough h = absurd (omega (arith, enough))
    pump_input-Logged (suc fuel) src d pumped f l enough h =
        let (got, h1, e1) = >>=-ok (map_err _ (read_some chunk src)) _ h in
        let (taken, left) =
          read_some-taken chunk src.bytes src.failure got.1 got.0 (map_err-ok _ _ e1) in
        elim (Bool-cases (is_empty got.0)) [
          | inl e ↦
              let none_left = no_more src.bytes (ap is_empty (sym taken) ∙ e) in
              (
                [],
                f,
                sym none_left,
                refl,
                subst (λ (m : Deflater crates miniz carries_no_more out host). Logged m f)
                    (ok-injective (rw e at h1)) l,
              )
          | inr e ↦
              let (next, h2, e2) =
                >>=-ok
                  (map_err write_error (deflate_all crates miniz carries_no_more out host d got.0))
                  _ (rw e at h1) in
              let wrote = deflate_all-write d got.0 e ∙ map_err-ok write_error _ e2 in
              let (f', e3, l') =
                Returns-ok
                  (λ (m : Deflater crates miniz carries_no_more out host).
                    (b : DeflateWriter miniz carries_no_more log) × (write miniz carries_no_more log
                        f got.0
                      ≡ ok b)
                    × Logged m b)
                  (write miniz carries_no_more (sealing crates zip_sink) d got.0)
                  (write-SameWriter miniz carries_no_more (sealing crates zip_sink) (Leads w)
                    (Leads-seal_all w) d f got.0 l)
                  wrote in
              let whole : src.bytes ≡ got.0 ++ got.1.bytes =
                sym (take-drop chunk src.bytes)
                ∙ ap (λ b. b ++ drop chunk src.bytes) (sym taken)
                ∙ ap (λ b. got.0 ++ b) (sym left) in
              let n = ap length whole ∙ length-append got.0 got.1.bytes in
              let (pieces, g, all, e4, l'') =
                pump_input-Logged fuel got.1 next pumped f' l'
                  (omega (arith, enough, n, some_got got.0 e)) h2 in
              (
                got.0 ∷ pieces,
                g,
                ap (λ b. got.0 ++ b) all ∙ sym whole,
                ap
                      (λ (r : Result StreamError (DeflateWriter miniz carries_no_more log)).
                        r >>= λ next. Same.writes miniz carries_no_more log next pieces)
                      e3
                    ∙ e4,
                l'',
              )
        ]
      where
        no_more : (b : Bytes) → is_empty (take chunk b) ≡ true → b ≡ []
        no_more [] k = refl
        no_more (x ∷ b) k = absurd (cc k)

        some_got : (b : Bytes) → is_empty b ≡ false → 1 ≤ length b
        some_got [] k = absurd (cc)
        some_got (x ∷ b) k = omega arith

        deflate_all-write :
            (d : Deflater crates miniz carries_no_more out host) (b : Bytes)
            → is_empty b ≡ false
            → write miniz carries_no_more (sealing crates zip_sink) d b
              ≡ deflate_all crates miniz carries_no_more out host d b
        deflate_all-write d [] k = absurd (cc)
        deflate_all-write d (x ∷ b) k = refl

  write-consumed :
      (f g : DeflateWriter miniz carries_no_more log) (bytes : Bytes)
      → write miniz carries_no_more log f bytes ≡ ok g
      → g.consumed ≡ f.consumed + length bytes
  unfolding write
  write-consumed f g bytes h = by_held f.held h
    where
      by_held :
          (held : Option (Held miniz carries_no_more log))
          → write miniz carries_no_more log (record f { held = held }) bytes ≡ ok g
          → g.consumed ≡ f.consumed + length bytes
      by_held none h =
          let (r, last, e) = >>=-ok (pump miniz carries_no_more log f.output bytes no_flush) _ h in
          ap (λ (w : DeflateWriter miniz carries_no_more log). w.consumed) (sym (ok-injective last))
      by_held (some held) h =
          let (r, last, e) =
            >>=-ok (gather miniz carries_no_more log (length bytes + 2) f.output held bytes) _ h in
          ap (λ (w : DeflateWriter miniz carries_no_more log). w.consumed) (sym (ok-injective last))

  Logged-consumed :
      (w : Sealer) (d : Deflater crates miniz carries_no_more out host)
      (f : DeflateWriter miniz carries_no_more log)
      → Logged w d f
      → d.consumed ≡ f.consumed
  Logged-consumed w _ _ (same s k) = refl

  payload-Leads :
      (sealer : Sealer) (deflate pumped : Deflater crates miniz carries_no_more out host)
      (last : Sealer) (source : Source)
      → adaptive miniz carries_no_more (sealing crates zip_sink) host.can_reserve sealer
        ≡ ok deflate
      → pump_input crates miniz carries_no_more out host (length source.bytes + 1) source deflate
        ≡ ok pumped
      → finish miniz carries_no_more (sealing crates zip_sink) pumped ≡ ok last
      → (plain : Bytes) × (deflated miniz carries_no_more source.bytes ≡ ok plain)
        × Leads sealer last plain
        × (pumped.consumed ≡ length source.bytes)
  payload-Leads sealer deflate pumped last source adapted copied finished =
      let (pieces, g, all, wrote, l) =
        pump_input-Logged sealer (length source.bytes + 1) source deflate pumped
          (new_adaptive miniz carries_no_more) (adaptive-Logged sealer deflate adapted)
          (omega arith) copied in
      let at_once : write miniz carries_no_more log (new_adaptive miniz carries_no_more)
            source.bytes
          ≡ ok g =
        ap (write miniz carries_no_more log (new_adaptive miniz carries_no_more)) (sym all)
        ∙ sym (
            writes-joined miniz carries_no_more log
              (record { dst = []; comp = miniz.new }, record { buf = []; compressing = false }) 0
              pieces (omega arith))
        ∙ wrote in
      let (plain, e, leads) =
        Returns-ok
          (λ (a : Sealer).
            (b : Bytes) × (finish miniz carries_no_more log g ≡ ok b) × Leads sealer a b)
          (finish miniz carries_no_more (sealing crates zip_sink) pumped)
          (finish-SameWriter miniz carries_no_more (sealing crates zip_sink) (Leads sealer)
            (Leads-seal_all sealer) pumped g l)
          finished in
      (
        plain,
        rw at_once e,
        leads,
        Logged-consumed sealer pumped g l
            ∙ write-consumed (new_adaptive miniz carries_no_more) g source.bytes at_once
            ∙ omega arith,
      )

  sealer-fresh :
      (dst : out.State) (gcm : GcmStream crates) (w : Sealer)
      → new_sealer crates zip_sink host.can_reserve dst gcm ≡ ok w
      → w ≡ record { dst = dst; gcm = gcm }
  unfolding new_sealer
  sealer-fresh dst gcm w h =
      let (buffer, rest, first) = >>=-ok (chunk_buffer host.can_reserve chunk) _ h in
      sym (ok-injective rest)

  new_gcm-start :
      (key iv : Bytes) (gcm : GcmStream crates)
      → new_gcm crates key iv ≡ some gcm
      → gcm ≡ start_gcm crates key iv
  unfolding new_gcm
  new_gcm-start key iv gcm h = elim (Bool-cases (length iv == aes_gcm_iv_len)) [
    | inl e ↦ elim (Bool-cases (length key == 16 || length key == 24 || length key == 32)) [
      | inl k ↦ let g = rw (e, k) at h in cc g
      | inr k ↦ let g = rw (e, k) at h in absurd (cc g)
    ]
    | inr e ↦ let g = rw e at h in absurd (cc g)
  ]

  -- What a payload that is written without an error adds to its member is a ciphertext and its tag,
  -- which verify under the key and the vector, whatever follows them, and any pieces of the
  -- ciphertext decrypt to what the deflater makes of the whole input at once, which has the announced
  -- size; it is assumed that the zip crate's writer adds what it is given, that GHASH takes bytes
  -- block by block and gives 16 bytes, and that the key stream runs on from call to call and restores
  -- what it was applied to.
  pub write_payload-opens :
      RunsOn crates
      → BlockByBlock crates.ghash
      → ((h : crates.ghash.State) → length (crates.ghash.finalize h) ≡ 16)
      → (held : out.State → Bytes) → Appends zip_sink held
      → (key iv : Bytes) (source : Source) (size : ℕ) (dst end : out.State)
      → write_payload crates miniz carries_no_more out host key iv source size dst ≡ ok end
      → (ciphertext stored plain : Bytes) × (length source.bytes ≡ size)
        × (deflated miniz carries_no_more source.bytes ≡ ok plain)
        × (held end ≡ held dst ++ (ciphertext ++ stored))
        × ((rest : Bytes)
            → gcm_verify crates key iv
                (record { bytes = ciphertext ++ (stored ++ rest); failure = none })
                (length ciphertext)
              ≡ ok true)
        × ((others : List Bytes)
            → joined others ≡ ciphertext
            → (decrypts crates (start_gcm crates key iv) others).1 ≡ plain)
  unfolding write_payload
  write_payload-opens stream blocks sixteen held appends key iv source size dst end h =
      let (gcm, h1, made) = >>=-ok (or_key_error (new_gcm crates key iv)) _ h in
      let good = or_key_error-ok (new_gcm crates key iv) made in
      let started = new_gcm-start key iv gcm good in
      let (sealer, h2, sealed) =
        >>=-ok (map_err fault_error (new_sealer crates zip_sink host.can_reserve dst gcm)) _ h1 in
      let fresh : sealer ≡ record { dst = dst; gcm = start_gcm crates key iv } =
        sealer-fresh dst gcm sealer (map_err-ok fault_error _ sealed)
        ∙ ap (λ (g : GcmStream crates). record { dst = dst; gcm = g }) started in
      let (deflate, h3, adapted) =
        >>=-ok
          (map_err fault_error
            (adaptive miniz carries_no_more (sealing crates zip_sink) host.can_reserve sealer))
          _ h2 in
      let (buf, h4, buffered) =
        >>=-ok (map_err fault_error (chunk_buffer host.can_reserve chunk)) _ h3 in
      let (pumped, h5, copied) =
        >>=-ok
          (pump_input crates miniz carries_no_more out host (length source.bytes + 1) source
            deflate)
          _ h4 in
      let (counted, h6) = guard-ok (not (pumped.consumed == size)) _ _ h5 in
      let (last, h7, finished) =
        >>=-ok (map_err write_error (finish miniz carries_no_more (sealing crates zip_sink) pumped))
          _ h6 in
      let (plain, made_plain, (ds, wrote, bytes_of), read) =
        payload-Leads sealer deflate pumped last source (map_err-ok fault_error _ adapted) copied
          (map_err-ok write_error _ finished) in
      let (ciphertext, stored, bytes, verifies, opens) =
        written_opens crates stream blocks sixteen zip_sink held appends key iv dst end last ds
          (good ∙ ap some started)
          (subst (λ (v : Sealer). writes crates zip_sink v ds ≡ ok last) fresh wrote)
          (map_err-ok write_error _ h7) in
      (
        ciphertext,
        stored,
        plain,
        ground (arith, counted, read),
        made_plain,
        bytes,
        verifies,
        λ others cut. opens others cut ∙ bytes_of,
      )
