-- ===== src/Decrypt/Ceilings.antt =====
-- src/decrypt.rs: `DecryptLimits`, what a package may ask for.
use odf_crypto.Prelude.{ℕ, ◌-◌, ◌^◌}
use odf_crypto.Limits.{
  argon2_max_t_cost_read, argon2_max_m_cost_kib_read, argon2_max_p_cost_read, pbkdf2_max_iter,
  max_output_bytes,
}

pub record DecryptLimits : Type 0 where
  pub argon2_max_t : ℕ
  pub argon2_max_m_kib : ℕ
  pub argon2_max_p : ℕ
  pub pbkdf2_max_iter : ℕ
  pub max_output_bytes : ℕ

-- `DecryptLimits::default()`
abbrev pub default_limits : DecryptLimits
default_limits = record {
  argon2_max_t = argon2_max_t_cost_read;
  argon2_max_m_kib = argon2_max_m_cost_kib_read;
  argon2_max_p = argon2_max_p_cost_read;
  pbkdf2_max_iter = pbkdf2_max_iter;
  max_output_bytes = max_output_bytes;
}

abbrev pub permissive : DecryptLimits
permissive = record {
  argon2_max_t = 2 ^ 31 - 1;
  argon2_max_m_kib = 2 ^ 31 - 1;
  argon2_max_p = 2 ^ 31 - 1;
  pbkdf2_max_iter = 2 ^ 31 - 1;
  max_output_bytes = 2 ^ 64 - 1;
}
