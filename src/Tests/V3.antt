-- ===== src/Tests/V3.antt =====
-- Chunks of format v3, over the toy primitives, and the vector of the source's own test.
use lvau.Base.{ℕ, ◌+◌, ◌≡◌, refl, true, [], ◌∷◌, ◌++◌, length, drop, replicate, arith}
use lvau.Base.Bytes.{Bytes, to_le_bytes}
use lvau.Error.{ok}
use lvau.Suite.{v3_xchacha20_poly1305}
use lvau.Suite.V3.{
  single, inner, padding, V3ChunkDescriptor, suite_code, layer_code, chunk_aad,
  encrypt_xchacha_chunk, decrypt_xchacha_chunk,
}
use lvau.Suite.V3.RoundTrip.{
  HasLengths, decrypt-encrypt_xchacha_chunk, decrypt_xchacha_chunk-HasLengths,
}
use lvau.Suite.V3.Distinct.{subkey_info_injective, nonce_info_injective, chunk_aad_injective_v3}
use lvau.Tests.Toy.{toy_primitives, toy-Laws}

abbrev plain : Bytes
plain = 10 ∷ 20 ∷ 30 ∷ []

abbrev descriptor : V3ChunkDescriptor
descriptor = record { index = 7; plaintext_len = 3; final_chunk = true }

abbrev index_five : ℕ
index_five = 5

abbrev no_inner : ℕ
no_inner = 0

abbrev sealed_len : ℕ
sealed_len = 19

abbrev key : Bytes
key = replicate 32 1

abbrev base : Bytes
base = replicate 24 2

abbrev commitment : Bytes
commitment = replicate 32 3

decrypt-encrypt_xchacha_chunk_example :
    (sealed : Bytes) × (encrypt_xchacha_chunk toy_primitives key base commitment descriptor plain
      ≡ ok sealed)
    × (length sealed ≡ length plain + 16)
    × (decrypt_xchacha_chunk toy_primitives key base commitment descriptor sealed ≡ ok plain)
decrypt-encrypt_xchacha_chunk_example =
    decrypt-encrypt_xchacha_chunk toy_primitives key base commitment plain descriptor toy-Laws
      (omega arith, (omega arith, (omega arith, tt))) refl (omega arith)

sealed_run :
    (sealed : Bytes) × (encrypt_xchacha_chunk toy_primitives key base commitment descriptor plain
      ≡ ok sealed)
    × (length sealed ≡ length plain + 16)
    × (decrypt_xchacha_chunk toy_primitives key base commitment descriptor sealed ≡ ok plain)
sealed_run =
    decrypt-encrypt_xchacha_chunk toy_primitives key base commitment plain descriptor toy-Laws
      (omega arith, (omega arith, (omega arith, tt))) refl (omega arith)

sealed_opens :
    decrypt_xchacha_chunk toy_primitives key base commitment descriptor sealed_run.0 ≡ ok plain
sealed_opens = let (sealed, made, tagged, opened) = sealed_run in opened

decrypt_xchacha_chunk-HasLengths_example : HasLengths descriptor sealed_run.0 plain
decrypt_xchacha_chunk-HasLengths_example =
    decrypt_xchacha_chunk-HasLengths toy_primitives key base commitment sealed_run.0 plain
      descriptor sealed_opens

subkey_info_injective_example :
    (v3_xchacha20_poly1305 ≡ v3_xchacha20_poly1305) × (padding ≡ padding)
subkey_info_injective_example =
    subkey_info_injective v3_xchacha20_poly1305 v3_xchacha20_poly1305 padding padding refl

nonce_info_injective_run :
    (v3_xchacha20_poly1305 ≡ v3_xchacha20_poly1305) × (inner ≡ inner) × (index_five ≡ index_five)
nonce_info_injective_run =
    nonce_info_injective v3_xchacha20_poly1305 v3_xchacha20_poly1305 inner inner 5 5 (omega arith)
      (omega arith) refl

chunk_aad_injective_v3_example :
    (v3_xchacha20_poly1305 ≡ v3_xchacha20_poly1305)
    × (single ≡ single)
    × (commitment ≡ commitment)
    × (descriptor ≡ descriptor)
    × (no_inner ≡ no_inner)
    × (sealed_len ≡ sealed_len)
chunk_aad_injective_v3_example =
    chunk_aad_injective_v3 v3_xchacha20_poly1305 v3_xchacha20_poly1305 single single commitment
      commitment descriptor descriptor 0 0 19 19 refl refl
      (record { small_index = omega arith; small_len = omega arith })
      (record { small_index = omega arith; small_len = omega arith }) (omega arith) (omega arith)
      (omega arith) (omega arith) refl

-- The vector of `nonce_and_aad_vectors_are_stable`, after the domain.
chunk_aad_vector :
    drop 17 (
      chunk_aad v3_xchacha20_poly1305 single
        (replicate 32 17)
        (record { index = 72623859790382856; plaintext_len = 1234; final_chunk = true })
        0
        1250)
    ≡ 0
      ∷ 1
      ∷ 1
      ∷ (replicate 32 17
          ++ (8 ∷ 7 ∷ 6 ∷ 5 ∷ 4 ∷ 3 ∷ 2 ∷ 1 ∷ 210 ∷ 4 ∷ 0 ∷ 0 ∷ 0 ∷ 0 ∷ 0 ∷ 0 ∷ 226 ∷ 4 ∷ 0 ∷ 0 ∷ 1
              ∷ []))
unfolding chunk_aad to_le_bytes suite_code layer_code
chunk_aad_vector = refl
