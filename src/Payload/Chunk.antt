-- ===== src/Payload/Chunk.antt =====
-- One chunk: what an algorithm encrypts it decrypts.
use lvau.Base.{ℕ, ◌+◌, ◌-◌, ◌≤◌, ◌≡◌, Option, some, [], length, All, arith}
use lvau.Base.Bytes.{Bytes, IsByte}
use lvau.Error.{ok}
use lvau.Envelope.{
  AlgorithmId, xchacha20_poly1305, cascade_aes_gcm_xchacha, triple_cascade_aes_xchacha_lco, x25519,
  ed25519, x25519_mlkem_hybrid, ed25519_mldsa_hybrid,
}
use lvau.Primitives.{Primitives, Laws, Hkdf}
use lvau.Framing.{xchacha_nonce, aes_nonce, chunk_aad}
use lvau.Lco.{apply_lco}
use lvau.Lco.Involution.{apply_lco_involutive}
use lvau.KeySchedule.{derive_subkey, label, payload, cascade_aes, cascade_xchacha, legacy_lco}
use lvau.Payload.{
  chunk_size, get_encrypted_chunk_size, PayloadKeys, derive_keys, encrypt_chunk, decrypt_chunk,
}

-- The tags of a chunk.
abbrev pub tag_size : AlgorithmId → ℕ
tag_size a = get_encrypted_chunk_size a - chunk_size

-- The algorithms that encrypt payloads, with the nonces that they need.
abbrev pub IsReady : AlgorithmId → Option Bytes → Type 0
IsReady xchacha20_poly1305 second = Unit
IsReady cascade_aes_gcm_xchacha second = (sn : Bytes) × (second ≡ some sn)
IsReady triple_cascade_aes_xchacha_lco second = (sn : Bytes) × (second ≡ some sn)
IsReady _ second = ⊥

module _ (p : Primitives) where
  -- A chunk's encryption succeeds, is longer by the tags, and is undone by its decryption.
  pub record Sealed (a : AlgorithmId) (keys : PayloadKeys) (base : Bytes) (second : Option Bytes)
      (hash : Bytes) (index : ℕ) (chunk : Bytes) : Type 0 where
    pub sealed : Bytes
    pub encrypted : encrypt_chunk p a keys base second hash index chunk ≡ ok sealed
    pub decrypted : decrypt_chunk p a keys base second hash index sealed ≡ ok chunk
    pub tagged : length sealed ≡ length chunk + tag_size a

  pub chunk_round_trip :
      (a : AlgorithmId) (keys : PayloadKeys) (base : Bytes) (second : Option Bytes) (hash : Bytes)
      (index : ℕ) (chunk : Bytes)
      → Laws p
      → IsReady a second
      → All IsByte chunk
      → length chunk ≤ chunk_size
      → Sealed a keys base second hash index chunk
  unfolding encrypt_chunk decrypt_chunk get_encrypted_chunk_size
  chunk_round_trip xchacha20_poly1305 keys base second hash index chunk l ready bytes small =
      let s =
        l.xchacha_laws keys.file_key (xchacha_nonce base index) (chunk_aad hash index) chunk bytes
          (omega arith) in
      record {
        sealed = s.sealed;
        encrypted = rw s.encrypted;
        decrypted = rw s.decrypted;
        tagged = s.tagged;
      }
  chunk_round_trip cascade_aes_gcm_xchacha keys base second hash index chunk l (sn, e) bytes small =
      let s =
        l.aes_gcm_laws keys.aes (aes_nonce sn index) (chunk_aad hash index) chunk bytes
          (omega arith) in
      let t =
        l.xchacha_laws keys.xchacha (xchacha_nonce base index) (chunk_aad hash index) s.sealed
          s.sealed_bytes (omega (arith, s.tagged)) in
      record {
        sealed = t.sealed;
        encrypted = rw (e, s.encrypted, t.encrypted);
        decrypted = rw (e, t.decrypted, s.decrypted);
        tagged = omega (arith, s.tagged, t.tagged);
      }
  chunk_round_trip triple_cascade_aes_xchacha_lco keys base second hash index chunk l (sn, e) bytes
        small =
      let s =
        l.aes_gcm_laws keys.aes (aes_nonce sn index) (chunk_aad hash index) chunk bytes
          (omega arith) in
      let t =
        l.xchacha_laws keys.xchacha (xchacha_nonce base index) (chunk_aad hash index) s.sealed
          s.sealed_bytes (omega (arith, s.tagged)) in
      let (undone, same) =
        apply_lco_involutive t.sealed keys.lco (xchacha_nonce base index) t.sealed_bytes in
      record {
        sealed = apply_lco t.sealed keys.lco (xchacha_nonce base index);
        encrypted = rw (e, s.encrypted, t.encrypted);
        decrypted = rw (e, undone, t.decrypted, s.decrypted);
        tagged = omega (arith, s.tagged, t.tagged, same);
      }
  chunk_round_trip x25519 keys base second hash index chunk l ready bytes small = absurd ready
  chunk_round_trip ed25519 keys base second hash index chunk l ready bytes small = absurd ready
  chunk_round_trip x25519_mlkem_hybrid keys base second hash index chunk l ready bytes small =
      absurd ready
  chunk_round_trip ed25519_mldsa_hybrid keys base second hash index chunk l ready bytes small =
      absurd ready

  -- The keys of a payload algorithm can be derived.
  pub derive_keys_total :
      (a : AlgorithmId) (second : Option Bytes) (hk : Hkdf)
      → Laws p
      → IsReady a second
      → (keys : PayloadKeys) × (derive_keys p a hk ≡ ok keys)
  unfolding derive_keys derive_subkey
  derive_keys_total xchacha20_poly1305 second hk l ready =
      let k = l.expand_law hk (label payload) 32 (omega arith) in
      (record { file_key = k.0; aes = []; xchacha = []; lco = [] }, rw k.1)
  derive_keys_total cascade_aes_gcm_xchacha second hk l ready =
      let a = l.expand_law hk (label cascade_aes) 32 (omega arith) in
      let x = l.expand_law hk (label cascade_xchacha) 32 (omega arith) in
      (record { file_key = []; aes = a.0; xchacha = x.0; lco = [] }, rw (a.1, x.1))
  derive_keys_total triple_cascade_aes_xchacha_lco second hk l ready =
      let a = l.expand_law hk (label cascade_aes) 32 (omega arith) in
      let x = l.expand_law hk (label cascade_xchacha) 32 (omega arith) in
      let o = l.expand_law hk (label legacy_lco) 32 (omega arith) in
      (record { file_key = []; aes = a.0; xchacha = x.0; lco = o.0 }, rw (a.1, x.1, o.1))
  derive_keys_total x25519 second hk l ready = absurd ready
  derive_keys_total ed25519 second hk l ready = absurd ready
  derive_keys_total x25519_mlkem_hybrid second hk l ready = absurd ready
  derive_keys_total ed25519_mldsa_hybrid second hk l ready = absurd ready
