-- ===== src/Lib.antt =====
-- Lvau encrypts files locally. A capsule is a length, a public envelope and a payload: the envelope names the
-- algorithms and holds the file key, wrapped under a password or for public keys, and a commitment to the public
-- fields; the payload is a sequence of encrypted chunks that are bound to the commitment. This development models
-- the code that makes and opens capsules, and proves what that code promises.
--
-- Parts, by file (paths from the repository's root):
-- - Envelope: crates/lvau-protocol/src/envelope.rs, the public types and `Envelope::validate`.
-- - Framing: crates/lvau-core/src/crypto/framing.rs, the nonce and the associated data of a chunk.
-- - Lco: crates/lvau-core/src/crypto/lco.rs, the legacy obfuscation.
-- - KeySchedule: crates/lvau-core/src/crypto/key_schedule.rs, the labels of HKDF.
-- - Reader: `std::io::Read` as the streams use it, a list of pieces and faults. Laws: the fill loop.
-- - Payload: crates/lvau-core/src/crypto/parallel.rs, one chunk; Payload/Stream, the two streams.
-- - Policy: crates/lvau-core/src/policy.rs, `lint_envelope` with a function for each rule.
-- - Capsule: crates/lvau-core/src/crypto/mod.rs. The file itself has the envelope's checks and `read_envelope`;
--   Encrypt has `encrypt_file_password` and `encrypt_file_keypairs` with the helpers that both use (`seal` is the
--   end that the two functions share in the source by repetition); Decrypt has decryption, verification and the
--   functions on memory.
-- - Recovery: crates/lvau-core/src/recovery.rs, `split_secret`, `combine_shares` and the checks on a share's file.
-- - Suite: crates/lvau-core/src/crypto/suite.rs, the registries of suites; Suite/V3: crates/lvau-core/src/crypto/suite/v3.rs,
--   keys, nonces, associated data and chunks of format v3.
-- - Artifact: how a finished capsule is taken apart and put together again; Signing: crates/lvau-core/src/signing.rs;
--   Release: crates/lvau-core/src/release.rs. Both change only fields that no commitment covers.
-- - Bundle: crates/lvau-core/src/bundle.rs, the check of a relative path, and crates/lvau-core/src/bundle_stream.rs:
--   Bundle/Manifest has the manifest and the plaintext of a bundle, from the collected files to the bytes that are
--   encrypted, and from the decrypted bytes to the files that are written.
-- - Sfx: self-extracting files, `create_sfx` of crates/lvau-cli/src/main.rs and the search for the payload of
--   crates/lvau-stub/src/main.rs.
-- - Preflight: crates/lvau-core/src/preflight.rs, the report on a capsule that is not opened.
-- - Report: crates/lvau-core/src/report.rs, the preflight with the outcome of opening the capsule.
-- - Diff: crates/lvau-core/src/diff.rs, the comparison of two manifests.
-- - Base, Error: lists, bytes, little-endian integers, `CryptoError` and results.
-- - Primitives: the ciphers, HKDF and SHA-256, which are other crates and so parameters, with the documented
--   behaviour that proofs rely on; `Capsule.Backend` has postcard, Argon2id, X25519 and ML-KEM,
--   `Signing.SigningBackend` Ed25519, and `Bundle.BundleBackend` BLAKE3 and the lower case of a text.
-- - Tests: every property at a concrete input, over small functions in place of the crates.
--
-- A function that writes a file returns the bytes that it persists, and persists nothing where it returns an
-- error. What the source draws at random is an argument (`Draws`). Machine integers are numbers: where the
-- source adds to a 64-bit counter the model is `stuck` on an overflow, since the release profile keeps the overflow
-- checks and the code panics there, and it gives an error where the source adds with a check. The loops of the streams
-- run on fuel, two more than the number of bytes that the reader holds: each full round takes at least one byte,
-- so that it is enough; `stuck` is the result if it ran out. The search for the next power of two tries the 64
-- powers that a 64-bit integer can hold.
--
-- Not modelled: the order in which threads work on a batch (its chunks are independent), progress callbacks,
-- logging, zeroing of memory, temporary files and permissions, a writer that fails, the reading of policy files and
-- of signing keys, the walk over a directory that is packed, the checks of links on extraction, and the rest of the
-- crates for the command line, the desktop application and the stub, which call this code.
pub mod Base
pub mod Error
pub mod Envelope
pub mod Framing
pub mod Lco
pub mod Primitives
pub mod KeySchedule
pub mod Reader
pub mod Payload
pub mod Policy
pub mod Capsule
pub mod Recovery
pub mod Suite
pub mod Artifact
pub mod Signing
pub mod Release
pub mod Bundle
pub mod Sfx
pub mod Diff
pub mod Preflight
pub mod Report
pub mod Tests
