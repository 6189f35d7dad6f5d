-- ===== src/Stream/Opening.antt =====
-- src/stream.rs: `GcmDecryptReader`, which decrypts and then checks the tag again. What a reader is
-- after an error is not modelled.
pub mod Released
pub mod Ends
use odf_crypto.Prelude.{
  ℕ, ◌-◌, Bool, not, Option, none, some, [], Bytes, leb, ◌==◌, if◌then◌else◌, is_empty, length,
  Result, ok, err, ◌>>=◌, ◌>>◌, refuse_if,
}
use odf_crypto.Limits.{aes_gcm_tag_len}
use odf_crypto.Stream.Source.{IoError, unexpected_eof, changed, Source, read_full, read_some}
use odf_crypto.Stream.Bits.{ct_eq}
use odf_crypto.Stream.Gcm.{AesCrates, GcmStream, decrypt, tag}

module _ (crates : AesCrates) where
  pub record GcmDecryptReader : Type 0 where
    pub src : Source
    pub gcm : Option (GcmStream crates)
    pub left : ℕ

  abbrev pub new_reader : Source → GcmStream crates → ℕ → GcmDecryptReader
  new_reader src gcm ct_len = record { src = src; gcm = some gcm; left = ct_len }

  -- `left` is 0: the tag, once.
  unfoldable pub check_tag :
      GcmDecryptReader → GcmStream crates → Result IoError (Bytes × GcmDecryptReader)
  check_tag r gcm = do
    (want, rest) ← read_full aes_gcm_tag_len r.src
    refuse_if (not (length want == aes_gcm_tag_len)) unexpected_eof
    refuse_if (not (ct_eq (tag crates gcm) want)) changed
    ok ([], record { src = rest; gcm = none; left = r.left })

  unfoldable pub open_some :
      ℕ → GcmDecryptReader → GcmStream crates → Result IoError (Bytes × GcmDecryptReader)
  open_some n r gcm = do
    (got, rest) ← read_some (if leb r.left n then r.left else n) r.src
    refuse_if (is_empty got) unexpected_eof
    ok (
      (decrypt crates gcm got).1,
      record { src = rest; gcm = some (decrypt crates gcm got).0; left = r.left - length got },
    )

  -- `read` into a buffer of `n` bytes.
  unfoldable pub open_read : ℕ → GcmDecryptReader → Result IoError (Bytes × GcmDecryptReader)
  open_read n r = if n == 0 then ok ([], r) else elim r.gcm [
    | none ↦ ok ([], r)
    | some gcm ↦ if r.left == 0 then check_tag r gcm else open_some n r gcm
  ]
