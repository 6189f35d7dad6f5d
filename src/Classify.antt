-- ===== src/Classify.antt =====
-- src/classify.rs: detection of an encrypted ODF package.
pub mod Names
pub mod Members
pub mod Rows
pub mod StageB
pub mod Package
