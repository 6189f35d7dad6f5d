-- ===== src/Encrypt/Key/Exact.antt =====
-- src/encrypt.rs: the tuples that `Argon2Params::new` accepts, against those that the key
-- derivation runs.
