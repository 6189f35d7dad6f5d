-- ===== src/ZipTree.antt =====
-- src/zip_tree.rs: the folder tree that LibreOffice builds over the names of a zip archive.
pub mod Node
pub mod Insert
pub mod Resolve
pub mod Unexpected
