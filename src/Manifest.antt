-- ===== src/Manifest.antt =====
-- src/manifest.rs: the manifest reader.
pub mod LoInt
pub mod Base64
pub mod Entity
pub mod Import
pub mod Fields
pub mod Element
pub mod Parse
