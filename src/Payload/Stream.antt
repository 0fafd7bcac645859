-- ===== src/Payload/Stream.antt =====
-- The streams of crates/lvau-core/src/crypto/parallel.rs: chunks are read in batches, encrypted or
-- decrypted, and written in order. A writer that fails is not modelled.
pub mod Read
pub mod Frame
pub mod Loop
pub mod Empty
pub mod RoundTrip
pub mod Count
use lvau.Base.{
  ℕ, zero, suc, ◌+◌, ◌-◌, ◌*◌, ◌%◌, ◌^◌, Bool, true, false, not, ◌&&◌, ◌||◌, Option, none, some,
  List, [], ◌∷◌, ◌++◌, length, is_empty, leb, ltb, ◌==◌, if◌then◌else◌,
}
use lvau.Base.Bytes.{Bytes}
use lvau.Error.{Result, ok, err, stuck, ◌>>=◌, ◌>>◌, require, CryptoError, decryption_failed}
use lvau.Envelope.{AlgorithmId, current_version}
use lvau.Primitives.{Primitives, Hkdf}
use lvau.Framing.{checked_add}
use lvau.Reader.{Reader, content, fill}
use lvau.Payload.{
  chunk_size, batch_chunks, get_encrypted_chunk_size, overflow, derive_keys, encrypt_chunk,
  decrypt_chunk,
}

-- The concatenation of what is written, and the number of bytes that the chunks hold.
pub flatten : List Bytes → Bytes
flatten [] = []
flatten (c ∷ cs) = c ++ flatten cs

-- `try_for_each` over a batch whose first chunk has the given index.
pub each_chunk :
    (ℕ → Bytes → Result Bytes CryptoError) → ℕ → List Bytes → Result (List Bytes) CryptoError
each_chunk f index [] = ok []
each_chunk f index (chunk ∷ chunks) = do
  require (ltb index (2 ^ 64)) overflow
  out ← f index chunk
  outs ← each_chunk f (index + 1) chunks
  ok (out ∷ outs)

-- `a + b` on `u64`, which panics where it overflows: the release profile keeps the checks.
abbrev pub add_u64 : ℕ → ℕ → Result ℕ CryptoError
add_u64 a b = if ltb (a + b) (2 ^ 64) then ok (a + b) else stuck

-- The loop that reads a batch of plaintext chunks; the number is that of the rounds left.
pub read_batch : ℕ → Reader → Result (List Bytes × Reader) CryptoError
read_batch zero r = ok ([], r)
read_batch (suc left) r = do
  (chunk, r') ← fill chunk_size r
  let more = read_batch left r'
  if length chunk == chunk_size
      then (more >>= λ m. ok (chunk ∷ m.0, m.1))
      else ok ((if is_empty chunk then [] else chunk ∷ []), r')

-- A v2 capsule with no plaintext still gets one frame.
abbrev pub with_empty_frame : ℕ → ℕ → List Bytes → List Bytes
with_empty_frame version index batch =
    if is_empty batch && (leb current_version version && index == 0) then [] ∷ [] else batch

-- The `loop` of `stream_encrypt_payload`: what it writes from here on, and the final count of bytes.
pub encrypt_loop :
    (ℕ → Bytes → Result Bytes CryptoError) → ℕ → ℕ → ℕ → ℕ → Reader → Result (Bytes × ℕ) CryptoError
encrypt_loop f version zero total index r = stuck
encrypt_loop f version (suc fuel) total index r = do
  (read, r') ← read_batch batch_chunks r
  let batch = with_empty_frame version index read
  if is_empty batch then ok ([], total) else (do
    out ← each_chunk f index batch
    total' ← add_u64 total (length (flatten batch))
    next ← checked_add index (length batch) overflow
    let rest = encrypt_loop f version fuel total' next r'
    if ltb (length (flatten batch)) (batch_chunks * chunk_size)
        then ok (flatten out, total')
        else (rest >>= λ more. ok (flatten out ++ more.0, more.1)))

-- The parameters of a run of `stream_decrypt_payload`.
pub record Frames : Type 0 where
  pub version : ℕ
  pub plaintext_len : ℕ
  pub encrypted_size : ℕ

-- `is_v2_empty_frame`
abbrev pub is_empty_frame : Frames → ℕ → ℕ → Bool
is_empty_frame s index count =
    leb current_version s.version && (s.plaintext_len == 0 && (index == 0 && count == 0))

abbrev pub expected_read_size : Frames → Bool → ℕ → ℕ
expected_read_size s empty remaining =
    if empty
    then s.encrypted_size - chunk_size
    else if ltb remaining chunk_size
    then remaining + (s.encrypted_size - chunk_size)
    else s.encrypted_size

-- The loop that reads a batch of encrypted chunks: the chunks, `eof_reached`, and the reader. The
-- first number is that of the rounds left, `count` that of the chunks already in the batch.
pub read_frames : Frames → ℕ → ℕ → ℕ → ℕ → Reader → Result (List Bytes × Bool × Reader) CryptoError
read_frames s zero total index count r = ok ([], false, r)
read_frames s (suc left) total index count r = do
  sum ← add_u64 total (count * chunk_size)
  let remaining = s.plaintext_len - sum
  let empty = is_empty_frame s index count
  let size = expected_read_size s empty remaining
  let last = empty || ltb remaining chunk_size
  if remaining == 0 && not empty then ok ([], true, r) else (do
    (chunk, r') ← fill size r
    let again = read_frames s left total index count r'
    let more = read_frames s left total index (count + 1) r'
    if is_empty chunk
        then (if last then ok ([], true, r') else (again >>= λ m. ok (m.0, true, m.2)))
        else if not (length chunk == size)
        then err decryption_failed
        else if last
        then ok (chunk ∷ [], true, r')
        else (more >>= λ m. ok (chunk ∷ m.0, m.1, m.2)))

-- `while !eof_reached { … }`: what it writes from here on, the final count, and the reader.
pub decrypt_loop :
    (ℕ → Bytes → Result Bytes CryptoError)
    → Frames
    → ℕ
    → Bool
    → ℕ
    → ℕ
    → Reader
    → Result (Bytes × ℕ × Reader) CryptoError
decrypt_loop f s zero eof total index r = stuck
decrypt_loop f s (suc fuel) true total index r = ok ([], total, r)
decrypt_loop f s (suc fuel) false total index r = do
  (batch, eof, r') ← read_frames s batch_chunks total index 0 r
  if is_empty batch then ok ([], total, r') else (do
    out ← each_chunk f index batch
    total' ← add_u64 total (length (flatten out))
    next ← checked_add index (length batch) overflow
    more ← decrypt_loop f s fuel eof total' next r'
    ok (flatten out ++ more.0, more.1, more.2))

module _ (p : Primitives) (algorithm : AlgorithmId) (version : ℕ) (hk : Hkdf) (base : Bytes)
    (second : Option Bytes) (hash : Bytes) where
  -- Every full batch takes bytes from the reader, so that the fuel is enough.
  pub stream_encrypt_payload : Reader → Result (Bytes × ℕ) CryptoError
  stream_encrypt_payload r = do
    keys ← derive_keys p algorithm hk
    encrypt_loop (encrypt_chunk p algorithm keys base second hash) version (length (content r) + 2)
        0 0 r

  -- The bytes written. The final read must find the end of the input.
  pub stream_decrypt_payload : ℕ → Reader → Result Bytes CryptoError
  stream_decrypt_payload plaintext_len r = do
    keys ← derive_keys p algorithm hk
    let s : Frames = record {
      version = version;
      plaintext_len = plaintext_len;
      encrypted_size = get_encrypted_chunk_size algorithm;
    }
    (out, total, r') ←
        decrypt_loop (decrypt_chunk p algorithm keys base second hash) s (length (content r) + 2)
          false 0 0 r
    require (total == plaintext_len) decryption_failed
    (trailing, _) ← fill 1 r'
    require (is_empty trailing) decryption_failed
    ok out
