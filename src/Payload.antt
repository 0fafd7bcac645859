-- ===== src/Payload.antt =====
-- crates/lvau-core/src/crypto/parallel.rs: the payload as a stream of encrypted chunks. The chunks of
-- a batch are independent of one another; they are taken in order here, where the source spreads them
-- over threads and puts the results back in order.
pub mod Stream
pub mod Chunk
use lvau.Base.{
  ℕ, zero, suc, ◌+◌, ◌-◌, ◌*◌, ◌%◌, ◌^◌, Bool, true, false, not, ◌&&◌, ◌||◌, Option, none, some,
  List, [], ◌∷◌, ◌++◌, length, is_empty, leb, ltb, ◌==◌, if◌then◌else◌,
}
use lvau.Base.Bytes.{Bytes}
use lvau.Error.{
  Result, ok, err, stuck, ◌>>=◌, ◌>>◌, require, ok_or, CryptoError, validation, encryption_failed,
  decryption_failed, unsupported_profile, missing_secondary_nonce,
}
use lvau.Envelope.{
  AlgorithmId, xchacha20_poly1305, cascade_aes_gcm_xchacha, triple_cascade_aes_xchacha_lco,
  current_version,
}
use lvau.Primitives.{Primitives, Hkdf}
use lvau.KeySchedule.{payload, cascade_aes, cascade_xchacha, legacy_lco, derive_subkey}
use lvau.Framing.{xchacha_nonce, aes_nonce, chunk_aad, checked_add}
use lvau.Lco.{apply_lco}
use lvau.Reader.{Reader, content, fill}

abbrev pub chunk_size : ℕ
chunk_size = 1024 * 1024

abbrev pub batch_chunks : ℕ
batch_chunks = 32

-- `get_encrypted_chunk_size`
unfoldable pub get_encrypted_chunk_size : AlgorithmId → ℕ
get_encrypted_chunk_size xchacha20_poly1305 = chunk_size + 16
get_encrypted_chunk_size cascade_aes_gcm_xchacha = chunk_size + 32
get_encrypted_chunk_size triple_cascade_aes_xchacha_lco = chunk_size + 32
get_encrypted_chunk_size _ = chunk_size

abbrev pub overflow : CryptoError
overflow = validation "Chunk index overflow"

-- The four keys, of which an algorithm uses some; the others stay zero in the source.
pub record PayloadKeys : Type 0 where
  pub file_key : Bytes
  pub aes : Bytes
  pub xchacha : Bytes
  pub lco : Bytes

module _ (p : Primitives) where
  -- The `match algorithm` at the head of both streams.
  pub derive_keys : AlgorithmId → Hkdf → Result PayloadKeys CryptoError
  derive_keys xchacha20_poly1305 hk = do
    k ← derive_subkey p hk payload
    ok (record { file_key = k; aes = []; xchacha = []; lco = [] })
  derive_keys cascade_aes_gcm_xchacha hk = do
    a ← derive_subkey p hk cascade_aes
    x ← derive_subkey p hk cascade_xchacha
    ok (record { file_key = []; aes = a; xchacha = x; lco = [] })
  derive_keys triple_cascade_aes_xchacha_lco hk = do
    a ← derive_subkey p hk cascade_aes
    x ← derive_subkey p hk cascade_xchacha
    l ← derive_subkey p hk legacy_lco
    ok (record { file_key = []; aes = a; xchacha = x; lco = l })
  derive_keys _ hk = err unsupported_profile

  -- The body of the closure that encrypts one chunk.
  pub encrypt_chunk :
      AlgorithmId
      → PayloadKeys
      → Bytes
      → Option Bytes
      → Bytes
      → ℕ
      → Bytes
      → Result Bytes CryptoError
  encrypt_chunk xchacha20_poly1305 keys base second hash index chunk =
      ok_or
        (p.xchacha.encrypt keys.file_key (xchacha_nonce base index) (chunk_aad hash index) chunk)
        encryption_failed
  encrypt_chunk cascade_aes_gcm_xchacha keys base second hash index chunk = do
    sn ← ok_or second missing_secondary_nonce
    c1 ←
        ok_or (p.aes_gcm.encrypt keys.aes (aes_nonce sn index) (chunk_aad hash index) chunk)
          encryption_failed
    ok_or (p.xchacha.encrypt keys.xchacha (xchacha_nonce base index) (chunk_aad hash index) c1)
        encryption_failed
  encrypt_chunk triple_cascade_aes_xchacha_lco keys base second hash index chunk = do
    sn ← ok_or second missing_secondary_nonce
    c1 ←
        ok_or (p.aes_gcm.encrypt keys.aes (aes_nonce sn index) (chunk_aad hash index) chunk)
          encryption_failed
    c2 ←
        ok_or (p.xchacha.encrypt keys.xchacha (xchacha_nonce base index) (chunk_aad hash index) c1)
          encryption_failed
    ok (apply_lco c2 keys.lco (xchacha_nonce base index))
  encrypt_chunk _ keys base second hash index chunk = err unsupported_profile

  -- The body of the closure that decrypts one chunk.
  pub decrypt_chunk :
      AlgorithmId
      → PayloadKeys
      → Bytes
      → Option Bytes
      → Bytes
      → ℕ
      → Bytes
      → Result Bytes CryptoError
  decrypt_chunk xchacha20_poly1305 keys base second hash index chunk =
      ok_or
        (p.xchacha.decrypt keys.file_key (xchacha_nonce base index) (chunk_aad hash index) chunk)
        decryption_failed
  decrypt_chunk cascade_aes_gcm_xchacha keys base second hash index chunk = do
    sn ← ok_or second missing_secondary_nonce
    c1 ←
        ok_or
          (p.xchacha.decrypt keys.xchacha (xchacha_nonce base index) (chunk_aad hash index) chunk)
          decryption_failed
    ok_or (p.aes_gcm.decrypt keys.aes (aes_nonce sn index) (chunk_aad hash index) c1)
        decryption_failed
  decrypt_chunk triple_cascade_aes_xchacha_lco keys base second hash index chunk = do
    sn ← ok_or second missing_secondary_nonce
    let c2 = apply_lco chunk keys.lco (xchacha_nonce base index)
    c1 ←
        ok_or (p.xchacha.decrypt keys.xchacha (xchacha_nonce base index) (chunk_aad hash index) c2)
          decryption_failed
    ok_or (p.aes_gcm.decrypt keys.aes (aes_nonce sn index) (chunk_aad hash index) c1)
        decryption_failed
  decrypt_chunk _ keys base second hash index chunk = err unsupported_profile
