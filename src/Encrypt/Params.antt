-- ===== src/Encrypt/Params.antt =====
-- src/encrypt.rs: the profile that is written, the Argon2 costs that a caller may choose, and
-- `EncryptError`. The greatest number of lanes is a constant of the argon2 crate, so a parameter.
use odf_crypto.Prelude.{
  ℕ, ◌+◌, ◌-◌, ◌*◌, ◌^◌, ℤ, pos, negsuc, Bool, not, ◌||◌, Str, codes, in_range, leb_ℤ, Result, ok,
  ◌>>◌, refuse_if,
}
use odf_crypto.Types.{DetectError}
use odf_crypto.Limits.{
  argon2_min_t_cost, argon2_max_t_cost_write, argon2_min_m_cost_kib, argon2_max_m_cost_kib_write,
  argon2_min_p_cost,
}
use odf_crypto.BadParameter.{Argon2Axis}
use odf_crypto.Manifest.LoInt.{as_i32}

pub record Profile : Type 0 where
  pub argon2_t : ℤ
  pub argon2_m_kib : ℤ
  pub argon2_p : ℤ
  pub derived_key_len : ℕ
  pub salt_len : ℕ
  pub iv_len : ℕ
  pub odf_version : Str

abbrev pub wholesome : Profile
wholesome = record {
  argon2_t = pos 3;
  argon2_m_kib = pos 65536;
  argon2_p = pos 4;
  derived_key_len = 32;
  salt_len = 16;
  iv_len = 12;
  odf_version = codes "1.4";
}

-- After the axis: `got`, `min` and `max`.
pub data ParamsReason : Type 0 where
  out_of_range cipher_rejects : Argon2Axis → ℤ → ℕ → ℕ → ParamsReason

-- `io` carries the text of the error of the caller's reader or writer.
pub data EncryptError : Type 0 where
  classify : DetectError → EncryptError
  already_encrypted partially_encrypted odf12_fatal empty_password : EncryptError
  random : Str → EncryptError
  params : ParamsReason → EncryptError
  host_cannot_allocate : ℕ → EncryptError
  deflate mimetype zip internal io : Str → EncryptError

pub record Argon2Params : Type 0 where
  pub t : ℤ
  pub m_kib : ℤ
  pub p : ℤ

abbrev pub libreoffice_default : Argon2Params
libreoffice_default = record {
  t = wholesome.argon2_t;
  m_kib = wholesome.argon2_m_kib;
  p = wholesome.argon2_p;
}

-- `u32::try_from(n).unwrap_or(default)`
abbrev pub u32_or : ℕ → ℤ → ℕ
u32_or default (pos n) = n
u32_or default (negsuc n) = default

-- `8 * p` on `i32`
unfoldable pub times_8 : ℤ → ℤ
times_8 (pos p) = as_i32 (pos (8 * p))
times_8 (negsuc p) = as_i32 (negsuc (8 * p + 7))

-- `a < b`
abbrev pub ltb_ℤ : ℤ → ℤ → Bool
ltb_ℤ a b = not (leb_ℤ b a)

-- `Argon2Params::new`
unfoldable pub new_params : ℕ → ℤ → ℤ → ℤ → Result EncryptError Argon2Params
new_params max_p_cost t m_kib p = do
  refuse_if (not (in_range argon2_min_t_cost argon2_max_t_cost_write (u32_or 0 t)))
      (params (ParamsReason.out_of_range Argon2Axis.t t argon2_min_t_cost argon2_max_t_cost_write))
  refuse_if (not (in_range argon2_min_m_cost_kib argon2_max_m_cost_kib_write (u32_or 0 m_kib))) (
      params (
        ParamsReason.out_of_range Argon2Axis.m_kib m_kib argon2_min_m_cost_kib
          argon2_max_m_cost_kib_write))
  refuse_if (not (in_range argon2_min_p_cost max_p_cost (u32_or 0 p)))
      (params (ParamsReason.cipher_rejects Argon2Axis.p p argon2_min_p_cost max_p_cost))
  refuse_if (ltb_ℤ m_kib (times_8 p)) (
      params (
        ParamsReason.cipher_rejects Argon2Axis.m_kib m_kib (u32_or (2 ^ 32 - 1) (times_8 p))
          argon2_max_m_cost_kib_write))
  ok (record { t = t; m_kib = m_kib; p = p })

unfoldable pub is_weaker_than_libreoffice : Argon2Params → Bool
is_weaker_than_libreoffice self =
    ltb_ℤ self.t libreoffice_default.t
    || ltb_ℤ self.m_kib libreoffice_default.m_kib
    || ltb_ℤ self.p libreoffice_default.p
