-- ===== src/Stream/Gate/Release.antt =====
-- src/stream.rs: what the gate lets through.
use odf_crypto.Prelude.{
  ℕ, ◌+◌, ◌-◌, ◌≤◌, true, false, not, none, List, [], ◌∷◌, ◌++◌, ◌≡◌, refl, sym, ap, ◌∙◌, arith,
  Bytes, leb, ltb, if◌then◌else◌, Bool-cases, inl, inr, length, take, drop, take-drop, overwrite,
  zeros, length-zeros, ◌⊎◌, Result, ok, err, ◌>>=◌, ◌>>◌, refuse_if,
}
use mathlib.Core.List.{append_assoc}
use odf_crypto.Types.{Checksum}
use odf_crypto.Kdf.{Hashes}
use odf_crypto.Stream.Source.{IoError, wrong_password}
use odf_crypto.Stream.Ghash.Absorbed.{drop-all, take-append}
use odf_crypto.Decrypt.Slice.Splice.{overwrite-splits}
use odf_crypto.Stream.Gate.Spans.{
  take-within, drop-drop, length-take-below, read_some-splits, read_full-splits,
}
use odf_crypto.Stream.Gate.{ChecksumGate, new_gate, window_matches, verify, release, read}

module _ (hashes : Hashes) where
  -- Reads of so many bytes each, one after the other.
  abbrev pub reads : List ℕ → ChecksumGate → Result IoError (Bytes × ChecksumGate)
  reads [] gate = ok ([], gate)
  reads (n ∷ sizes) gate =
      read hashes n gate >>= λ first. reads sizes first.1 >>= λ rest. ok (first.0 ++ rest.0, rest.1)

  -- A gate that has verified its window, over bytes that do not fail.
  abbrev opened : Checksum → Bytes → ℕ → ℕ → Bytes → ChecksumGate
  opened digest window position len bytes = record {
    src = record { bytes = bytes; failure = none };
    checksum = digest;
    window = window;
    position = position;
    len = len;
    verified = true;
  }

  -- The bytes that are still to come.
  abbrev pub left : ChecksumGate → Bytes
  left gate = drop gate.position (take gate.len gate.window) ++ gate.src.bytes

  read-opened :
      (n : ℕ) (digest : Checksum) (window : Bytes) (position len : ℕ) (bytes : Bytes)
      → (out : Bytes) × (position' : ℕ) × (bytes' : Bytes) × (read hashes n
            (opened digest window position len bytes)
          ≡ ok (out, opened digest window position' len bytes'))
        × (out ++ left (opened digest window position' len bytes')
            ≡ left (opened digest window position len bytes))
  unfolding read verify release
  read-opened n digest window position len bytes = elim (Bool-cases (ltb position len)) [
    | inl e ↦
        let count = if leb (len - position) n then len - position else n in
        let fits : position + count ≤ len = ground arith in
        (
          take count (drop position window),
          position + count,
          bytes,
          rw e refl,
          ap (λ (b : Bytes). b ++ (drop (position + count) (take len window) ++ bytes))
                (sym (take-within count position len window fits))
              ∙ sym (
                  append_assoc (take count (drop position (take len window)))
                    (drop (position + count) (take len window)) bytes)
              ∙ ap (λ (b : Bytes). b ++ bytes)
                  (ap (λ (b : Bytes). take count (drop position (take len window)) ++ b)
                      (drop-drop position count (take len window))
                    ∙ take-drop count (drop position (take len window))),
        )
    | inr e ↦
        let spent : drop position (take len window) ≡ [] =
          drop-all position (take len window)
            (let short = length-take-below len window in ground arith) in
        (
          take n bytes,
          position,
          drop n bytes,
          rw (e, read_some-splits n bytes) refl,
          ap (λ (b : Bytes). take n bytes ++ (b ++ drop n bytes)) spent
              ∙ take-drop n bytes
              ∙ ap (λ (b : Bytes). b ++ bytes) (sym spent),
        )
  ]

  reads-opened :
      (sizes : List ℕ) (digest : Checksum) (window : Bytes) (position len : ℕ) (bytes : Bytes)
      → (out : Bytes) × (gate : ChecksumGate) × (reads sizes
            (opened digest window position len bytes)
          ≡ ok (out, gate))
        × (out ++ left gate ≡ left (opened digest window position len bytes))
  reads-opened [] digest window position len bytes =
      ([], opened digest window position len bytes, refl, refl)
  reads-opened (n ∷ sizes) digest window position len bytes =
      let (out, p, b, e, s) = read-opened n digest window position len bytes in
      let (more, gate, r, t) = reads-opened sizes digest window p len b in
      (
        out ++ more,
        gate,
        rw (e, r) refl,
        append_assoc out more (left gate) ∙ ap (λ (m : Bytes). out ++ m) t ∙ s,
      )

  -- The window of a new gate, once it is filled.
  abbrev first_window : Bytes → Bytes
  first_window bytes = overwrite 0 (take 1024 bytes) (zeros 1024)

  window-bytes :
      (bytes : Bytes) → take (length (take 1024 bytes)) (first_window bytes) ≡ take 1024 bytes
  window-bytes bytes =
      let got = take 1024 bytes in
      ap (take (length got)) (
        overwrite-splits 0 got (zeros 1024)
          (omega (arith, length-take-below 1024 bytes, length-zeros 1024)))
      ∙ take-append got (drop (0 + length got) (zeros 1024))

  verify-new :
      (digest : Checksum) (bytes : Bytes)
      → verify hashes (new_gate (record { bytes = bytes; failure = none }) digest) ≡ (
          refuse_if (not (window_matches hashes digest (take 1024 bytes))) wrong_password
          >> ok (opened digest (first_window bytes) 0 (length (take 1024 bytes)) (drop 1024 bytes)))
  unfolding verify
  verify-new digest bytes = rw (read_full-splits 1024 bytes, window-bytes bytes) refl

  read-new :
      (n : ℕ) (digest : Checksum) (bytes : Bytes)
      → window_matches hashes digest (take 1024 bytes) ≡ true
      → read hashes n (new_gate (record { bytes = bytes; failure = none }) digest)
        ≡ release hashes n
            (opened digest (first_window bytes) 0 (length (take 1024 bytes)) (drop 1024 bytes))
  unfolding read
  read-new n digest bytes e = rw (verify-new digest bytes, e) refl

  read-release :
      (n : ℕ) (digest : Checksum) (window : Bytes) (len : ℕ) (bytes : Bytes)
      → read hashes n (opened digest window 0 len bytes)
        ≡ release hashes n (opened digest window 0 len bytes)
  unfolding read verify
  read-release n digest window len bytes = refl

  -- Over bytes that do not fail, either the digest of the first 1024 of them differs, and the first
  -- read releases nothing and ends in a wrong password; or it matches, and reads of any sizes
  -- succeed and release the bytes in their order, with those not yet read still to come.
  pub reads-released :
      (digest : Checksum) (bytes : Bytes) (n : ℕ) (sizes : List ℕ)
      → ((window_matches hashes digest (take 1024 bytes) ≡ false)
          × (reads (n ∷ sizes) (new_gate (record { bytes = bytes; failure = none }) digest)
              ≡ err wrong_password))
        ⊎ ((window_matches hashes digest (take 1024 bytes) ≡ true)
            × ((out : Bytes) × (gate : ChecksumGate) × (reads
                    (n ∷ sizes)
                    (new_gate (record { bytes = bytes; failure = none }) digest)
                  ≡ ok (out, gate))
                × (out ++ left gate ≡ bytes)))
  unfolding read
  reads-released digest bytes n sizes =
      let new = new_gate (record { bytes = bytes; failure = none }) digest in
      let len = length (take 1024 bytes) in
      elim (Bool-cases (window_matches hashes digest (take 1024 bytes))) [
        | inl e ↦
            let (out, gate, r, s) =
              reads-opened (n ∷ sizes) digest (first_window bytes) 0 len (drop 1024 bytes) in
            inr (
              e,
              (
                out,
                gate,
                ap
                      (λ (first : Result IoError (Bytes × ChecksumGate)). first >>= λ first.
                        reads sizes first.1 >>= λ rest. ok (first.0 ++ rest.0, rest.1))
                      (read-new n digest bytes e
                        ∙ sym (read-release n digest (first_window bytes) len (drop 1024 bytes)))
                    ∙ r,
                s
                    ∙ ap (λ (b : Bytes). b ++ drop 1024 bytes) (window-bytes bytes)
                    ∙ take-drop 1024 bytes,
              ),
            )
        | inr e ↦ inl (e, rw (verify-new digest bytes, e) refl)
      ]
