-- ===== src/Limits.antt =====
-- src/limits.rs: the limits of decryption. The limits of detection stand where they are read.
use odf_crypto.Prelude.{ℕ, ◌*◌, ◌-◌, ◌^◌}

abbrev pub pbkdf2_min_iter : ℕ
pbkdf2_min_iter = 1

abbrev pub pbkdf2_max_iter : ℕ
pbkdf2_max_iter = 10_000_000

abbrev pub argon2_min_t_cost : ℕ
argon2_min_t_cost = 1

abbrev pub argon2_max_t_cost_read : ℕ
argon2_max_t_cost_read = 10

abbrev pub argon2_max_t_cost_write : ℕ
argon2_max_t_cost_write = 2 ^ 31 - 1

abbrev pub argon2_max_p_cost_read : ℕ
argon2_max_p_cost_read = 16

abbrev pub argon2_min_m_cost_kib : ℕ
argon2_min_m_cost_kib = 1

abbrev pub argon2_max_m_cost_kib_write : ℕ
argon2_max_m_cost_kib_write = 2 ^ 31 - 1

abbrev pub argon2_max_m_cost_kib_read : ℕ
argon2_max_m_cost_kib_read = 2 ^ 20

abbrev pub argon2_min_p_cost : ℕ
argon2_min_p_cost = 1

abbrev pub derived_key_min_len : ℕ
derived_key_min_len = 1

abbrev pub derived_key_max_len : ℕ
derived_key_max_len = 64

abbrev pub max_encrypted_entries : ℕ
max_encrypted_entries = 4096

abbrev pub checksum_window : ℕ
checksum_window = 1024

abbrev pub payload_ceiling : ℕ
payload_ceiling = 2 ^ 30

abbrev pub inflate_ceiling : ℕ
inflate_ceiling = payload_ceiling

abbrev pub max_output_bytes : ℕ
max_output_bytes = 16 * 2 ^ 30

abbrev pub aes_gcm_iv_len : ℕ
aes_gcm_iv_len = 12

abbrev pub aes_gcm_tag_len : ℕ
aes_gcm_tag_len = 16

abbrev pub aes_cbc_iv_len : ℕ
aes_cbc_iv_len = 16

abbrev pub aes_block_len : ℕ
aes_block_len = 16

abbrev pub blowfish_iv_len : ℕ
blowfish_iv_len = 8
