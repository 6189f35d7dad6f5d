-- ===== src/Decrypt.antt =====
-- src/decrypt.rs, src/decrypt_stream.rs and src/decrypt_entries.rs.
pub mod Ceilings
pub mod Errors
pub mod Screen
pub mod Shape
pub mod Keys
pub mod Strip
pub mod Slice
pub mod Plan
pub mod Member
