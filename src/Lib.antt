-- ===== src/Lib.antt =====
-- odf-crypto: is a package an ODF package, is it encrypted, in which zip shape and with which
-- algorithms; the parts of its decryption that decide what is derived, tried, verified, refused and
-- rewritten; and its encryption. `classify` follows LibreOffice's two stages. The first reads
-- META-INF/manifest.xml into one property bag for each row, the second walks the bags over a tree of
-- the zip's member names and concludes. Decryption screens that classification, screens each row
-- against its member, derives keys from the password until one opens the member, and rewrites the
-- manifest without the encryption. Encryption screens a plain package, derives a key from the password,
-- and writes three members: the media type, the whole package deflated and sealed under AES-GCM, and a
-- manifest with one row.
--
-- The parts and their files, by the paths of the repository:
-- - src/types.rs is Types: each struct is a record and each enum a data type, with the source's names
--   in snake case. `wholesome_row` is in Classify/Package.
-- - src/uris.rs is Uris: each constant keeps its name in lower case.
-- - src/manifest.rs is Manifest. `parse_i32` and `parse_i64` are in Manifest/LoInt, `decode_b64` and
--   `encode_b64` in Manifest/Base64, `expand_ref` and `normalize_attr_value` in Manifest/Entity,
--   `Import` and its stack in Manifest/Import, the handlers of one element in Manifest/Fields,
--   `start_element` and `end_element` in Manifest/Element, `parse_manifest` in Manifest/Parse.
-- - src/zip_tree.rs is ZipTree: nodes in ZipTree/Node, `from_zip_names` in ZipTree/Insert, `resolve`
--   and the folder cache in ZipTree/Resolve, `look_unexpected` in ZipTree/Unexpected.
-- - src/classify.rs is Classify: names and diagnostics in Classify/Names, the archive's members in
--   Classify/Members, `accept_row` in Classify/Rows, `stage_b` in Classify/StageB, the whole in
--   Classify/Package.
-- - src/limits.rs is Limits, and src/bad_parameter.rs is BadParameter with `Argon2Axis` of
--   src/encrypt.rs; its texts are in BadParameter/Display. src/zip_err.rs is ZipErr.
-- - src/ms1252.rs is Ms1252, its tables in Ms1252/Table.
-- - src/kdf.rs is Kdf: the start keys and StarOffice's digest, with `derive_argon2id` in Kdf/Argon2.
-- - src/decrypt.rs and src/decrypt_stream.rs are Decrypt: `DecryptLimits` in Decrypt/Ceilings,
--   `DecryptError` in Decrypt/Errors, `screen_class` and `member_for_archive` in Decrypt/Screen,
--   `screen_shape` and the sizes in Decrypt/Shape, `derive_key` and `find_key` in Decrypt/Keys,
--   `strip_manifest` in Decrypt/Strip, `SliceWriter` in Decrypt/Slice, `wholesome` and the two passes
--   over a member in Decrypt/Member. The plan of `per_entry` of
--   src/decrypt_entries.rs is in Decrypt/Plan.
-- - src/encrypt.rs and src/encrypt_stream.rs are Encrypt: `Argon2Params` in Encrypt/Params, the media
--   type in Encrypt/MediaType, `derive_write_key` and `screen_input` in Encrypt/Key, `build_manifest` in
--   Encrypt/Manifest, the members in Encrypt/Payload, `run` and its callers in Encrypt/Run.
--   `deflate_bound` of src/zip_stream.rs is in Encrypt/Payload.
-- - src/io_latch.rs is IoLatch.
-- - src/stream.rs is Stream: a reader in Stream/Source, `ct_eq` in Stream/Bits, `GhashStream` in
--   Stream/Ghash, `GcmStream` and `gcm_verify` in Stream/Gcm, `ChecksumGate` in Stream/Gate, `Fault` and
--   a writer in Stream/Sink, `GcmEncryptWriter` in Stream/Sealing, `GcmDecryptReader` in Stream/Opening,
--   `DeflateWriter` in Stream/Deflate, any reader in Stream/Reader, `InflateReader` in Stream/Inflate,
--   `CbcDecryptReader` and `BlowfishDecryptReader` in Stream/Cbc.
-- - Prelude holds what they share: tests, lists, results, texts, maps and signed integers.
--
-- A method on `&mut self` is a function from state to state, with its answer beside the new state
-- where it has one; a `Result` with `?` is `Result` with a bind. A `str` is the list of its scalar
-- values and a slice at a separator is the pair of the two parts. A `HashMap` or `BTreeMap` is an
-- association list with each key once. An `i32` or `i64` is an integer, with its range in
-- the theorems; the one `u64` accumulator wraps at 2 ^ 64. The stack of open elements is a list, the
-- top first.
--
-- Parameters: the XML reader is a function from bytes to events, where an event says if its text was
-- valid; an opened archive is a list with what the zip crate gives for each index; `from_utf8_lossy`
-- is any function; a failing reader's error is the latched error that `classify_reader` takes. The
-- hashes, PBKDF2, the argon2 crate and the host's memory and threads are the fields of `Hashes`,
-- `Argon2Crate`, `Host` and `Crypto`; the test of a key on a member is an argument of `find_key`, as
-- in the source; the aes, ctr and ghash crates are the fields of `AesCrates` and `GhashCrate`; a
-- reader is the bytes that it still gives, with its end or its error, and one `read` takes what fits;
-- the XML reader and writer of the rewrite are the fields of `Xml`. The XML writer of the new manifest
-- is a function from events to bytes, and `ReadsBack` says that the reader gives back what it was given,
-- each attribute escaped and each empty element as a start and an end. The zip writer is `ZipOut`, the
-- caller's reader is `PackageInput`, the random bytes are an argument, and so is the error text of
-- `from_utf8`, which itself is in Prelude/Utf8. The compressor of miniz_oxide is `Compressor`, with a
-- bound `rounds`, no part of the crate, on the calls that `pump` makes, and the entropy test of a chunk, which is in floating point,
-- is a predicate on its bytes. The error of an `io::Write` is `StreamError`. The decompressor of
-- miniz_oxide is `Decompressor`, the cbc and cfb crates are each a `CipherCrate`, and what the
-- two passes' openings of a member give is `Openings`, in the first one for each key that is tried.
--
-- Recursion is structural, but for `decimal` of Classify/Names, whose fuel is 20, the digits of a
-- `usize` at most, and `search_loop` of Ms1252/Table, whose fuel is the number of rows: each turn
-- leaves fewer, and the loop of `gcm_verify`, whose fuel is the number of bytes: each turn takes one at
-- least. The loop of `DeflateWriter::pump` runs on the bound of the compressor's crate, `gather` on two
-- more than the bytes written, `blocks` and the standard `write_all` of the sealer on the number of
-- bytes, the copying of the input on one more, and the digits of a number on the number itself.
-- `read_full` over any reader runs on the size of its buffer, the loop of `InflateReader::read` on four
-- more than the bytes that its reader still gives, that of `CbcDecryptReader::read` on 2, since one
-- refill leaves plaintext or the end, `copy_out` on two more than the declared size, and `drain` on two
-- more than the ciphertext's length. The
-- `u32` depth of the rewrite is a natural number, since a manifest has at most 8 MiB.
--
-- Not modelled: the member loop of `per_entry`, which rebuilds the zip, and the entry points of
-- decryption above it; the streaming zip writer; the change of a password, which is made of the two; the
-- command line and the types that clear memory. Each would stand on the parts above, and nothing here
-- depends on it.
mod Prelude
pub mod Types
pub mod Ms1252
pub mod Limits
pub mod BadParameter
pub mod Kdf
pub mod Decrypt
pub mod Stream
pub mod IoLatch
pub mod Uris
pub mod Manifest
pub mod ZipTree
pub mod Classify
pub mod Encrypt
pub mod ZipErr
mod Tests
