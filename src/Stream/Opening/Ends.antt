-- ===== src/Stream/Opening/Ends.antt =====
-- src/stream.rs: `GcmDecryptReader` ends, and only behind a tag that matches.
use odf_crypto.Prelude.{
  ℕ, suc, ◌-◌, ◌≤◌, ◌<◌, false, not, none, some, List, [], ◌∷◌, ◌++◌, ◌≡◌, refl, sym, subst, arith,
  Bytes, leb, if◌then◌else◌, ◌==◌, is_empty, All, Bool-cases, Option-cases, inl, inr, length,
  Result, ok, ◌>>=◌, ok-injective, >>=-ok, guard-ok,
}
use mathlib.Core.List.{append_assoc, append-nil}
use odf_crypto.Limits.{aes_gcm_tag_len}
use odf_crypto.Stream.Source.{IoError, unexpected_eof, changed, Source, read_full, read_some}
use odf_crypto.Stream.Bits.{ct_eq}
use odf_crypto.Stream.Ghash.Whole.{joined}
use odf_crypto.Stream.Gcm.{AesCrates, GcmStream, tag}
use odf_crypto.Stream.Gcm.Seal.{decrypts}
use odf_crypto.Stream.Opening.{GcmDecryptReader, new_reader, check_tag, open_some, open_read}
use odf_crypto.Stream.Opening.Released.{Released, IsVerified, open_read-Released}

module _ (crates : AesCrates) where
  -- Reads into buffers of these sizes, one after the other: what they gave, and the reader.
  abbrev pub opens :
      List ℕ → GcmDecryptReader crates → Result IoError (Bytes × GcmDecryptReader crates)
  opens [] r = ok ([], r)
  opens (n ∷ sizes) r = open_read crates n r >>= λ first.
      opens sizes first.1 >>= λ rest. ok (first.0 ++ rest.0, rest.1)

  -- The reads that are still to come: one for each byte, and one for the tag.
  abbrev pub to_come : GcmDecryptReader crates → ℕ
  to_come r = elim r.gcm [ none ↦ 0 | some gcm ↦ suc r.left ]

  pub check_tag-to_come :
      (r : GcmDecryptReader crates) (gcm : GcmStream crates) (q : Bytes × GcmDecryptReader crates)
      → check_tag crates r gcm ≡ ok q
      → to_come q.1 ≡ 0
  unfolding check_tag
  check_tag-to_come r gcm q h =
      let (w, rest, first) = >>=-ok (read_full aes_gcm_tag_len r.src) _ h in
      let verified : GcmDecryptReader crates = record { src = w.1; gcm = none; left = r.left } in
      let (long, rest') = guard-ok (not (length w.0 == aes_gcm_tag_len)) unexpected_eof _ rest in
      let (matches, last) =
        guard-ok (not (ct_eq (tag crates gcm) w.0)) changed (ok ([], verified)) rest' in
      subst (λ (p : Bytes × GcmDecryptReader crates). to_come p.1 ≡ 0) (ok-injective last) refl

  open_some-to_come :
      (n : ℕ) (r : GcmDecryptReader crates) (gcm : GcmStream crates)
      (q : Bytes × GcmDecryptReader crates)
      → 0 < r.left
      → open_some crates n r gcm ≡ ok q
      → to_come q.1 ≤ r.left
  unfolding open_some
  open_some-to_come n r gcm q busy h =
      let (w, rest, first) = >>=-ok (read_some (if leb r.left n then r.left else n) r.src) _ h in
      let (got, last) = guard-ok (is_empty w.0) unexpected_eof _ rest in
      subst (λ (p : Bytes × GcmDecryptReader crates). to_come p.1 ≤ r.left) (ok-injective last)
        (nonempty w.0 got)
    where
      nonempty : (bytes : Bytes) → is_empty bytes ≡ false → suc (r.left - length bytes) ≤ r.left
      nonempty [] e = absurd (cc)
      nonempty (b ∷ bytes) e = omega (arith, busy)

  -- A read into a buffer that is not empty brings the end nearer.
  pub open_read-to_come :
      (n : ℕ) (r : GcmDecryptReader crates) (q : Bytes × GcmDecryptReader crates)
      → 1 ≤ n
      → open_read crates n r ≡ ok q
      → to_come q.1 ≤ to_come r - 1
  unfolding open_read
  open_read-to_come n r q room h =
      let nonzero : (n == 0) ≡ false = ground arith in
      elim (Option-cases r.gcm) [
        | inl e ↦
            let over : to_come r ≡ 0 = rw e refl in
            subst (λ (p : Bytes × GcmDecryptReader crates). to_come p.1 ≤ to_come r - 1)
              (ok-injective (rw (nonzero, e, open_read) at h)) (omega (arith, over))
        | inr (gcm, e) ↦
            let whole : to_come r ≡ suc r.left = rw e refl in
            elim (Bool-cases (r.left == 0)) [
              | inl done ↦
                  omega (arith, check_tag-to_come r gcm q (rw (nonzero, e, done, open_read) at h))
              | inr more ↦ omega (
                arith,
                whole,
                open_some-to_come n r gcm q (ground arith) (rw (nonzero, e, more, open_read) at h),
              )
            ]
      ]

  abbrev pub IsNonempty : ℕ → Type 0
  IsNonempty n = 1 ≤ n

  opens-to_come :
      (sizes : List ℕ) (r : GcmDecryptReader crates) (q : Bytes × GcmDecryptReader crates)
      → All IsNonempty sizes
      → opens sizes r ≡ ok q
      → to_come q.1 ≤ to_come r - length sizes
  opens-to_come [] r q h e =
      subst (λ (p : Bytes × GcmDecryptReader crates). to_come p.1 ≤ to_come r - 0) (ok-injective e)
        (omega arith)
  opens-to_come (n ∷ sizes) r q h e =
      let (first, rest, e1) = >>=-ok (open_read crates n r) _ e in
      let (more, last, e2) = >>=-ok (opens sizes first.1) _ rest in
      subst (λ (p : Bytes × GcmDecryptReader crates). to_come p.1 ≤ to_come r - suc (length sizes))
        (ok-injective last)
        (omega (arith, open_read-to_come n r first h.0 e1, opens-to_come sizes first.1 more h.1 e2))

  module _ (s : GcmStream crates) (ct_len : ℕ) (bytes : Bytes) where
    opens-Released :
        (sizes : List ℕ) (out : Bytes) (r : GcmDecryptReader crates)
        (q : Bytes × GcmDecryptReader crates)
        → Released crates s ct_len bytes out r
        → opens sizes r ≡ ok q
        → Released crates s ct_len bytes (out ++ q.0) q.1
    opens-Released [] out r q released e =
        subst
          (λ (p : Bytes × GcmDecryptReader crates). Released crates s ct_len bytes (out ++ p.0) p.1)
          (ok-injective e)
          (subst (λ (b : Bytes). Released crates s ct_len bytes b r) (sym (append-nil out))
            released)
    opens-Released (n ∷ sizes) out r q released e =
        let (first, rest, e1) = >>=-ok (open_read crates n r) _ e in
        let (more, last, e2) = >>=-ok (opens sizes first.1) _ rest in
        subst
          (λ (p : Bytes × GcmDecryptReader crates). Released crates s ct_len bytes (out ++ p.0) p.1)
          (ok-injective last)
          (subst (λ (b : Bytes). Released crates s ct_len bytes b more.1)
            (append_assoc out first.0 more.0)
            (opens-Released sizes (out ++ first.0) first.1 more
              (open_read-Released crates s ct_len bytes n out r first released e1) e2))

  -- More reads than the ciphertext has bytes, none into an empty buffer and none that fails, end the
  -- stream: they give the ciphertext, in some pieces, decrypted, all of it, and its tag matches the
  -- 16 bytes behind it.
  pub opens-IsVerified :
      (s : GcmStream crates) (src : Source) (ct_len : ℕ) (sizes : List ℕ) (out : Bytes)
      (r : GcmDecryptReader crates)
      → All IsNonempty sizes
      → ct_len < length sizes
      → opens sizes (new_reader crates src s ct_len) ≡ ok (out, r)
      → (pieces : List Bytes) × (tail : Bytes) × (src.bytes ≡ joined pieces ++ tail)
        × (out ≡ (decrypts crates s pieces).1)
        × IsVerified crates s ct_len src.bytes pieces tail r
  opens-IsVerified s src ct_len sizes out r some_room enough e =
      let start = new_reader crates src s ct_len in
      let over : to_come r ≡ 0 =
        omega (arith, enough, opens-to_come sizes start (out, r) some_room e) in
      let (pieces, tail, cut, plain, state) =
        opens-Released s ct_len src.bytes sizes [] start (out, r)
          ([], src.bytes, refl, refl, inl (refl, refl, omega arith)) e in
      elim state [
        | inl inside ↦
            absurd (let w : to_come r ≡ suc r.left = rw (inside.0) refl in omega (arith, w, over))
        | inr verified ↦ (pieces, tail, cut, plain, verified)
      ]
