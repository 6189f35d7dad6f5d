-- ===== src/Stream/Sealing/Sealed.antt =====
-- src/stream.rs: what `GcmEncryptWriter` leaves in its writer opens again.
use odf_crypto.Prelude.{
  ℕ, zero, suc, ◌≤◌, true, none, some, List, [], ◌∷◌, ◌++◌, ◌≡◌, refl, sym, ap, ◌∙◌, subst, arith,
  Bytes, leb, ◌==◌, if◌then◌else◌, length, take, drop, take-drop, length-drop, Result, ok, ◌>>=◌,
  >>=-ok, guard-ok, ok-injective,
}
use mathlib.Core.List.{append_assoc, append-nil}
use odf_crypto.Stream.Sink.{StreamError, Sink}
use odf_crypto.Stream.Ghash.Absorbed.{BlockByBlock}
use odf_crypto.Stream.Ghash.Whole.{joined}
use odf_crypto.Stream.Gcm.{
  AesCrates, GcmStream, chunk, start_gcm, new_gcm, encrypt, tag, gcm_verify,
}
use odf_crypto.Stream.Gcm.Seal.{RunsOn, encrypts, decrypts, sealed_opens}
use odf_crypto.Stream.Sealing.{GcmEncryptWriter, seal, seal_loop, seal_all, finish_seal}

-- What a writer documents: a write that succeeds adds the bytes behind those that it holds.
abbrev pub Appends : (sink : Sink) → (sink.State → Bytes) → Type 0
Appends sink held =
    (s next : sink.State) (data_in : Bytes)
    → sink.write_all s data_in ≡ ok next
    → held next ≡ held s ++ data_in

-- One call of `write_all` after the other.
abbrev pub writes :
    (crates : AesCrates) (sink : Sink)
    → GcmEncryptWriter crates sink
    → List Bytes
    → Result StreamError (GcmEncryptWriter crates sink)
writes crates sink w [] = ok w
writes crates sink w (d ∷ ds) = seal_all crates sink w d >>= λ next. writes crates sink next ds

module _ (crates : AesCrates) where
  encrypts-append :
      (s : GcmStream crates) (xs ys : List Bytes)
      → (encrypts crates s (xs ++ ys)).1
          ≡ (encrypts crates s xs).1 ++ (encrypts crates (encrypts crates s xs).0 ys).1
        × (encrypts crates s (xs ++ ys)).0 ≡ (encrypts crates (encrypts crates s xs).0 ys).0
  encrypts-append s [] ys = (refl, refl)
  encrypts-append s (x ∷ xs) ys =
      let first = encrypt crates s x in
      let rest = encrypts-append first.0 xs ys in
      (ap (λ b. first.1 ++ b) rest.0 ∙ sym (append_assoc first.1 _ _), rest.1)

  module _ (sink : Sink) (held : sink.State → Bytes) (appends : Appends sink held) where
    abbrev Writer : Type 0
    Writer = GcmEncryptWriter crates sink

    -- Between the two states, the data was encrypted in some pieces, and its ciphertext written.
    abbrev Sealed : Writer → Writer → Bytes → Type 0
    Sealed w w' data_in =
        (pieces : List Bytes) × (joined pieces ≡ data_in)
        × (held w'.dst ≡ held w.dst ++ (encrypts crates w.gcm pieces).1)
        × (w'.gcm ≡ (encrypts crates w.gcm pieces).0)

    Sealed-none : (w : Writer) → Sealed w w []
    Sealed-none w = ([], refl, sym (append-nil (held w.dst)), refl)

    joined-append : (xs ys : List Bytes) → joined (xs ++ ys) ≡ joined xs ++ joined ys
    joined-append [] ys = refl
    joined-append (x ∷ xs) ys =
        ap (λ b. x ++ b) (joined-append xs ys) ∙ sym (append_assoc x (joined xs) (joined ys))

    Sealed-append :
        (w w' w'' : Writer) (d e : Bytes) → Sealed w w' d → Sealed w' w'' e → Sealed w w'' (d ++ e)
    Sealed-append w w' w'' d e (xs, jx, hx, gx) (ys, jy, hy, gy) =
        let both = encrypts-append w.gcm xs ys in
        (
          xs ++ ys,
          joined-append xs ys ∙ ap (λ b. b ++ joined ys) jx ∙ ap (λ b. d ++ b) jy,
          hy
              ∙ ap (λ (g : GcmStream crates). held w'.dst ++ (encrypts crates g ys).1) gx
              ∙ ap (λ b. b ++ (encrypts crates (encrypts crates w.gcm xs).0 ys).1) hx
              ∙ append_assoc (held w.dst) _ _
              ∙ ap (λ b. held w.dst ++ b) (sym both.0),
          gy ∙ ap (λ (g : GcmStream crates). (encrypts crates g ys).0) gx ∙ sym both.1,
        )

    abbrev count : Bytes → ℕ
    count data_in = if leb (length data_in) chunk then length data_in else chunk

    seal-Sealed :
        (w : Writer) (data_in : Bytes) (r : ℕ × Writer)
        → seal crates sink w data_in ≡ ok r
        → (r.0 ≡ count data_in) × Sealed w r.1 (take (count data_in) data_in)
    unfolding seal
    seal-Sealed w data_in r h =
        let piece = take (count data_in) data_in in
        let (dst, e, wrote) = >>=-ok (sink.write_all w.dst (encrypt crates w.gcm piece).1) _ h in
        subst (λ (q : ℕ × Writer). (q.0 ≡ count data_in) × Sealed w q.1 piece) (ok-injective e)
          (
            refl,
            (
              piece ∷ [],
              append-nil piece,
              appends w.dst dst _ wrote ∙ ap (λ b. held w.dst ++ b) (sym (append-nil _)),
              refl,
            ),
          )

    seal_loop-Sealed :
        (fuel : ℕ) (w w' : Writer) (data_in : Bytes)
        → length data_in ≤ fuel
        → seal_loop crates sink fuel w data_in ≡ ok w'
        → Sealed w w' data_in
    unfolding seal_loop
    seal_loop-Sealed zero w w' [] enough h =
        subst (λ (v : Writer). Sealed w v []) (ok-injective h) (Sealed-none w)
    seal_loop-Sealed (suc fuel) w w' [] enough h =
        subst (λ (v : Writer). Sealed w v []) (ok-injective h) (Sealed-none w)
    seal_loop-Sealed zero w w' (b ∷ data_in) enough h = absurd (omega (arith, enough))
    seal_loop-Sealed (suc fuel) w w' (b ∷ data_in) enough h =
        let all = b ∷ data_in in
        let (r, rest, first) = >>=-ok (seal crates sink w all) _ h in
        let (some_taken, later) = guard-ok (r.0 == 0) _ _ rest in
        let (counted, sealed) = seal-Sealed w all r first in
        let shorter : length (drop r.0 all) ≤ fuel = let l = length-drop r.0 all in ground arith in
        let whole : take (count all) all ++ drop r.0 all ≡ all =
          ap (λ n. take (count all) all ++ drop n all) counted ∙ take-drop (count all) all in
        subst (Sealed w w') whole (
          Sealed-append w r.1 w' _ _ sealed
            (seal_loop-Sealed fuel r.1 w' (drop r.0 all) shorter later))

    writes-Sealed :
        (w w' : Writer) (ds : List Bytes)
        → writes crates sink w ds ≡ ok w'
        → Sealed w w' (joined ds)
    unfolding seal_all
    writes-Sealed w w' [] h = subst (λ (v : Writer). Sealed w v []) (ok-injective h) (Sealed-none w)
    writes-Sealed w w' (d ∷ ds) h =
        let (next, rest, first) = >>=-ok (seal_all crates sink w d) _ h in
        Sealed-append w next w' d (joined ds)
          (seal_loop-Sealed (length d) w next d (omega arith) first) (writes-Sealed next w' ds rest)

-- Whatever is written, in calls of any size, leaves in the writer a ciphertext and its tag, which
-- verify under the key and the vector, whatever follows them, and of which any pieces decrypt to
-- what was written; it is assumed that the writer adds what it is given, that the key and the vector
-- have the right lengths, that GHASH takes bytes block by block and gives 16 bytes, and that the key
-- stream runs on from call to call and restores what it was applied to.
pub written_opens :
    (crates : AesCrates)
    → RunsOn crates
    → BlockByBlock crates.ghash
    → ((h : crates.ghash.State) → length (crates.ghash.finalize h) ≡ 16)
    → (sink : Sink) (held : sink.State → Bytes) → Appends sink held
    → (key iv : Bytes) (dst out : sink.State) (w : GcmEncryptWriter crates sink) (ds : List Bytes)
    → new_gcm crates key iv ≡ some (start_gcm crates key iv)
    → writes crates sink (record { dst = dst; gcm = start_gcm crates key iv }) ds ≡ ok w
    → finish_seal crates sink w ≡ ok out
    → (ciphertext stored : Bytes) × (held out ≡ held dst ++ (ciphertext ++ stored))
      × ((rest : Bytes)
          → gcm_verify crates key iv
              (record { bytes = ciphertext ++ (stored ++ rest); failure = none })
              (length ciphertext)
            ≡ ok true)
      × ((others : List Bytes)
          → joined others ≡ ciphertext
          → (decrypts crates (start_gcm crates key iv) others).1 ≡ joined ds)
unfolding finish_seal
written_opens crates stream blocks sixteen sink held appends key iv dst out w ds good wrote ended =
    let s = start_gcm crates key iv in
    let (pieces, same, bytes, last) =
      writes-Sealed crates sink held appends (record { dst = dst; gcm = s }) w ds wrote in
    let sealed = encrypts crates s pieces in
    (
      sealed.1,
      tag crates sealed.0,
      appends w.dst out _ ended
          ∙ ap (λ b. b ++ tag crates w.gcm) bytes
          ∙ ap (λ (g : GcmStream crates). (held dst ++ sealed.1) ++ tag crates g) last
          ∙ append_assoc (held dst) sealed.1 _,
      λ rest.
          (sealed_opens crates stream blocks sixteen key iv rest pieces (sealed.1 ∷ []) good
            (append-nil sealed.1)).0,
      λ others cut.
          (sealed_opens crates stream blocks sixteen key iv [] pieces others good cut).1 ∙ same,
    )
