-- ===== src/Tests/Payload.antt =====
-- The payload streams over the toy ciphers.
use lvau.Base.{length, ℕ, ◌≡◌, refl, some, [], ◌∷◌, replicate, arith}
use lvau.Base.Bytes.{Bytes}
use lvau.Error.{ok}
use lvau.Envelope.{cascade_aes_gcm_xchacha}
use lvau.Capsule.Encrypt.{hkdf}
use lvau.Capsule.Decrypt.{cursor}
use lvau.Reader.{piece, content}
use lvau.Payload.Stream.{stream_encrypt_payload, stream_decrypt_payload}
use lvau.Payload.Stream.Count.{stream_decrypt_payload-length}
use lvau.Payload.Stream.RoundTrip.{stream_encrypt_total, stream_decrypt-stream_encrypt}
use lvau.Tests.Toy.{toy_primitives, toy-Laws, cursor-IsSteady, content-cursor}

abbrev second : Bytes
second = replicate 12 3

stream_encrypt_total_example :
    (out : Bytes) × (stream_encrypt_payload toy_primitives cascade_aes_gcm_xchacha 2
        (hkdf [])
        (replicate 24 1)
        (some second)
        (replicate 32 9)
        (piece (10 ∷ []) ∷ piece (20 ∷ []) ∷ [])
      ≡ ok (out, 2))
unfolding content
stream_encrypt_total_example =
    stream_encrypt_total toy_primitives cascade_aes_gcm_xchacha 2 (hkdf []) (replicate 24 1)
      (some second) (replicate 32 9) (10 ∷ 20 ∷ []) (piece (10 ∷ []) ∷ piece (20 ∷ []) ∷ [])
      toy-Laws (second, refl) (omega arith, (omega arith, tt)) (omega arith)
      (omega arith, (omega arith, tt)) refl

stream_encrypt_total_run :
    (out : Bytes) × (stream_encrypt_payload toy_primitives cascade_aes_gcm_xchacha 2
        (hkdf [])
        (replicate 24 1)
        (some second)
        (replicate 32 9)
        (piece (10 ∷ []) ∷ piece (20 ∷ []) ∷ [])
      ≡ ok (out, 2))
unfolding content
stream_encrypt_total_run =
    stream_encrypt_total toy_primitives cascade_aes_gcm_xchacha 2 (hkdf []) (replicate 24 1)
      (some second) (replicate 32 9) (10 ∷ 20 ∷ []) (piece (10 ∷ []) ∷ piece (20 ∷ []) ∷ [])
      toy-Laws (second, refl) (omega arith, (omega arith, tt)) (omega arith)
      (omega arith, (omega arith, tt)) refl

stream_decrypt-stream_encrypt_example :
    (◌≡◌ {A = ℕ} 2 2)
    × (stream_decrypt_payload toy_primitives cascade_aes_gcm_xchacha 2
          (hkdf [])
          (replicate 24 1)
          (some second)
          (replicate 32 9)
          2
          (cursor (stream_encrypt_total_run.0))
        ≡ ok (10 ∷ 20 ∷ []))
unfolding content
stream_decrypt-stream_encrypt_example =
    stream_decrypt-stream_encrypt toy_primitives cascade_aes_gcm_xchacha 2 (hkdf [])
      (replicate 24 1) (some second) (replicate 32 9) (10 ∷ 20 ∷ []) stream_encrypt_total_run.0 2
      (piece (10 ∷ []) ∷ piece (20 ∷ []) ∷ []) (cursor stream_encrypt_total_run.0) toy-Laws
      (second, refl) (omega arith, (omega arith, tt)) (omega arith) (omega arith, (omega arith, tt))
      refl stream_encrypt_total_run.1 (cursor-IsSteady stream_encrypt_total_run.0)
      (content-cursor stream_encrypt_total_run.0)

stream_decrypt-stream_encrypt_run :
    (◌≡◌ {A = ℕ} 2 2)
    × (stream_decrypt_payload toy_primitives cascade_aes_gcm_xchacha 2
          (hkdf [])
          (replicate 24 1)
          (some second)
          (replicate 32 9)
          2
          (cursor (stream_encrypt_total_run.0))
        ≡ ok (10 ∷ 20 ∷ []))
unfolding content
stream_decrypt-stream_encrypt_run =
    stream_decrypt-stream_encrypt toy_primitives cascade_aes_gcm_xchacha 2 (hkdf [])
      (replicate 24 1) (some second) (replicate 32 9) (10 ∷ 20 ∷ []) stream_encrypt_total_run.0 2
      (piece (10 ∷ []) ∷ piece (20 ∷ []) ∷ []) (cursor stream_encrypt_total_run.0) toy-Laws
      (second, refl) (omega arith, (omega arith, tt)) (omega arith) (omega arith, (omega arith, tt))
      refl stream_encrypt_total_run.1 (cursor-IsSteady stream_encrypt_total_run.0)
      (content-cursor stream_encrypt_total_run.0)

stream_decrypt_payload-length_example : ◌≡◌ {A = ℕ} 2 (length {A = ℕ} (10 ∷ 20 ∷ []))
stream_decrypt_payload-length_example =
    stream_decrypt_payload-length toy_primitives cascade_aes_gcm_xchacha 2 (hkdf [])
      (replicate 24 1) (some second) (replicate 32 9) 2 (cursor (stream_encrypt_total_run.0))
      (10 ∷ 20 ∷ []) stream_decrypt-stream_encrypt_run.1
