-- ===== src/Tests.antt =====
-- Inputs like those of the source's unit tests.
mod Samples
mod Manifest
mod Classify
mod ZipTree
mod Keys
mod Kdf
mod Decrypt
mod Stream
mod Writer
mod Encrypt
mod Writers
mod IoLatch
mod Readers
mod Release
