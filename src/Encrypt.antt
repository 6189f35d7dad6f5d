-- ===== src/Encrypt.antt =====
-- src/encrypt.rs and src/encrypt_stream.rs: password encryption of a package.
pub mod Params
pub mod MediaType
pub mod Key
pub mod Manifest
pub mod Detected
pub mod Payload
pub mod Run
