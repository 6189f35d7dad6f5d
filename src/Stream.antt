-- ===== src/Stream.antt =====
-- src/stream.rs: the streaming half of AES-GCM, and the checksum gate.
pub mod Source
pub mod Bits
pub mod Ghash
pub mod Gcm
pub mod Sink
pub mod Sealing
pub mod Opening
pub mod Deflate
pub mod Gate
pub mod Reader
pub mod Inflate
pub mod Cbc
