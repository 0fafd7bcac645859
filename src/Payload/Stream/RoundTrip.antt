-- ===== src/Payload/Stream/RoundTrip.antt =====
-- `stream_encrypt_payload` and `stream_decrypt_payload` as a whole.
use lvau.Base.{
  ℕ, zero, suc, ◌+◌, ◌*◌, ◌^◌, ◌≤◌, ◌<◌, ◌≡◌, refl, sym, ap, ◌∙◌, true, false, ◌&&◌, ◌==◌, leb,
  Bool-cases, inl, inr, Option, List, [], ◌∷◌, ◌++◌, length, drop, is_empty, arith, subst,
  length-drop, All, All-drop, length-append, length-take,
}
use lvau.Base.Bytes.{Bytes, IsByte}
use lvau.Error.{Result, ok, CryptoError}
use lvau.Envelope.{
  AlgorithmId, current_version, xchacha20_poly1305, cascade_aes_gcm_xchacha,
  triple_cascade_aes_xchacha_lco, x25519, ed25519, x25519_mlkem_hybrid, ed25519_mldsa_hybrid,
}
use lvau.Primitives.{Primitives, Laws, Hkdf}
use lvau.Reader.{Reader, content, fill, IsSteady}
use lvau.Reader.Laws.{fill_lem}
use lvau.Payload.{
  chunk_size, batch_chunks, get_encrypted_chunk_size, encrypt_chunk, decrypt_chunk, PayloadKeys,
  derive_keys,
}
use lvau.Payload.Chunk.{IsReady, tag_size, chunk_round_trip, derive_keys_total}
use lvau.Payload.Stream.{flatten, stream_encrypt_payload, stream_decrypt_payload}
use lvau.Payload.Stream.Read.{
  chunks, length-chunks, chunks-IsChunk, frames_exist, Framed, flatten-chunks, read_batch_lem,
  chunks_none,
}
use lvau.Payload.Stream.Loop.{
  Framing, done, last, full, batch_bytes, encrypt_loop_lem, decrypt_loop_lem, LoopRead,
}
use lvau.Payload.Stream.Empty.{encrypt_empty, decrypt_empty}
use native.Mathlib.Decide.{dec_lt}

module _ (f g : ℕ → Bytes → Result Bytes CryptoError) (tag : ℕ)
    (law : (index : ℕ) (c : Bytes)
      → All IsByte c
      → length c ≤ chunk_size
      → (e : Bytes) × (f index c ≡ ok e) × (g index e ≡ ok c) × (length e ≡ length c + tag)) where
  Framing-exists :
      (fuel index : ℕ) (xs : Bytes)
      → All IsByte xs
      → length xs < fuel
      → index * chunk_size + length xs < 2 ^ 64
      → (out : Bytes) × Framing f g tag index xs out
  Framing-exists zero index xs bytes enough room = absurd (omega arith)
  Framing-exists (suc fuel) index [] bytes enough room = ([], done)
  Framing-exists (suc fuel) index (x ∷ xs) bytes enough room =
      let (es, h) =
        frames_exist f g tag law index (chunks batch_chunks (x ∷ xs))
          (chunks-IsChunk batch_chunks (x ∷ xs) bytes)
          (omega (arith, length-chunks batch_chunks (x ∷ xs))) in
      elim (dec_lt (length (x ∷ xs)) batch_bytes) [
        | yes small ↦ (flatten es, last es (omega arith) small h)
        | no big ↦
            let len = length-drop batch_bytes (x ∷ xs) in
            let (more, later) =
              Framing-exists fuel (index + batch_chunks) (drop batch_bytes (x ∷ xs))
                (All-drop IsByte batch_bytes (x ∷ xs) bytes) (omega (arith, len))
                (omega (arith, len)) in
            (flatten es ++ more, full es more (omega arith) h later)
      ]

-- Every payload algorithm's frames are longer than their chunks by its tags.
encrypted_size_lem :
    (a : AlgorithmId) (second : Option Bytes)
    → IsReady a second
    → (0 < tag_size a) × (get_encrypted_chunk_size a ≡ chunk_size + tag_size a)
unfolding get_encrypted_chunk_size
encrypted_size_lem xchacha20_poly1305 second h = omega arith
encrypted_size_lem cascade_aes_gcm_xchacha second h = omega arith
encrypted_size_lem triple_cascade_aes_xchacha_lco second h = omega arith
encrypted_size_lem x25519 second h = absurd h
encrypted_size_lem ed25519 second h = absurd h
encrypted_size_lem x25519_mlkem_hybrid second h = absurd h
encrypted_size_lem ed25519_mldsa_hybrid second h = absurd h

flatten-length-le :
    (f g : ℕ → Bytes → Result Bytes CryptoError) (tag index : ℕ) (cs es : List Bytes)
    → Framed f g tag index cs es
    → length (flatten cs) ≤ length (flatten es)
unfolding flatten
flatten-length-le f g tag index [] [] h = omega arith
flatten-length-le f g tag index [] (e ∷ es) h = absurd h
flatten-length-le f g tag index (c ∷ cs) [] h = absurd h
flatten-length-le f g tag index (c ∷ cs) (e ∷ es) (h, hs) = omega (
  arith,
  length-append {0} c (flatten cs),
  length-append {0} e (flatten es),
  h.3,
  flatten-length-le f g tag (index + 1) cs es hs,
)

-- A framing is at least as long as its plaintext, so that the fuel of the decryption is enough.
Framing-longer :
    (f g : ℕ → Bytes → Result Bytes CryptoError) (tag : ℕ) {index : ℕ} {xs out : Bytes}
    → Framing f g tag index xs out
    → length xs ≤ length out
Framing-longer f g tag done = omega arith
Framing-longer f g tag {index} {xs} (last es pos small h) = omega (
  arith,
  flatten-length-le f g tag index (chunks batch_chunks xs) es h,
  ap length (flatten-chunks batch_chunks xs),
  length-take {0} batch_bytes xs,
)
Framing-longer f g tag {index} {xs} (full es more big h next) = omega (
  arith,
  flatten-length-le f g tag index (chunks batch_chunks xs) es h,
  ap length (flatten-chunks batch_chunks xs),
  length-take {0} batch_bytes xs,
  length-drop {0} batch_bytes xs,
  length-append {0} (flatten es) more,
  Framing-longer f g tag next,
)

no_frame :
    (xs : Bytes) (version : ℕ)
    → (is_empty xs && leb current_version version) ≡ false
    → (leb current_version version && (length xs == 0 && (0 == 0 && 0 == 0))) ≡ false
no_frame [] version h = ground arith
no_frame (x ∷ xs) version h = ground arith

both :
    (xs : Bytes) (version : ℕ)
    → (is_empty xs && leb current_version version) ≡ true
    → (xs ≡ []) × (leb current_version version ≡ true)
both [] version h = (refl, h)
both (x ∷ xs) version h = absurd (cc)

two_more : (n : ℕ) → n + 2 ≡ suc (suc n)
two_more n = omega arith

module _ (p : Primitives) (laws : Laws p) (a : AlgorithmId) (version : ℕ) (hk : Hkdf) (base : Bytes)
    (second : Option Bytes) (hash : Bytes) (ready : IsReady a second) where
  -- The capsule's payload for a plaintext: what the encryption writes, and the decryption reads back.
  record Capsule (xs : Bytes) : Type 0 where
    out : Bytes
    writes :
        (r : Reader)
        → IsSteady r
        → content r ≡ xs
        → stream_encrypt_payload p a version hk base second hash r ≡ ok (out, length xs)
    reads :
        (r : Reader)
        → IsSteady r
        → content r ≡ out
        → stream_decrypt_payload p a version hk base second hash (length xs) r ≡ ok xs

  -- The end of `stream_decrypt_payload`, from what its loop returned.
  finish :
      (keys : PayloadKeys) (xs : Bytes) (r : Reader)
      → derive_keys p a hk ≡ ok keys
      → LoopRead
          (encrypt_chunk p a keys base second hash)
          (decrypt_chunk p a keys base second hash)
          (tag_size a)
          (record {
            version = version;
            plaintext_len = length xs;
            encrypted_size = get_encrypted_chunk_size a;
          })
          (length (content r) + 2)
          false
          0
          0
          r
          xs
      → stream_decrypt_payload p a version hk base second hash (length xs) r ≡ ok xs
  unfolding stream_decrypt_payload
  finish keys xs r derived loop =
      let t = fill_lem 1 loop.left loop.steady in
      let end : fill 1 loop.left ≡ ok ([], t.left) = t.returned ∙ rw loop.rest in
      let same : (0 + length xs == length xs) ≡ true = ground arith in
      rw (derived, loop.returned, same, end)

  -- The frames of a plaintext, except where v2 writes one for an empty file.
  framed-Capsule :
      (keys : PayloadKeys) (xs out : Bytes)
      → derive_keys p a hk ≡ ok keys
      → length xs < 2 ^ 64
      → (is_empty xs && leb current_version version) ≡ false
      → Framing
          (encrypt_chunk p a keys base second hash)
          (decrypt_chunk p a keys base second hash)
          (tag_size a)
          0
          xs
          out
      → Capsule xs
  unfolding stream_encrypt_payload
  framed-Capsule keys xs out derived bound quiet fr =
      let (pos, size) = encrypted_size_lem a second ready in
      record {
        out = out;
        writes = λ r st same. rw derived (
            encrypt_loop_lem _ _ (tag_size a) version _ 0 r fr st same (ground arith)
              (omega (arith, ap length same)) (omega arith) (omega arith)
            ∙ ap (λ n. ok (out, n)) {x = 0 + length xs} (omega arith));
        reads = λ r st same. finish keys xs r derived (
            decrypt_loop_lem _ _ (tag_size a) _ pos size bound _ 0 r fr st same
              (no_frame xs version quiet)
              (omega (arith, ap length same, Framing-longer _ _ (tag_size a) fr)) (omega arith)
              (omega arith));
      }

  empty-Capsule :
      (keys : PayloadKeys) (e : Bytes)
      → derive_keys p a hk ≡ ok keys
      → leb current_version version ≡ true
      → encrypt_chunk p a keys base second hash 0 [] ≡ ok e
      → decrypt_chunk p a keys base second hash 0 e ≡ ok []
      → length e ≡ tag_size a
      → Capsule []
  unfolding stream_encrypt_payload
  empty-Capsule keys e derived v2 enc dec len =
      let (pos, size) = encrypted_size_lem a second ready in
      record {
        out = e;
        writes = λ r st same.
            let b = read_batch_lem batch_chunks r st in
            rw (derived, two_more (length (content r)))
              (encrypt_empty _ (decrypt_chunk p a keys base second hash) (tag_size a) version _ r
                b.left e (b.returned ∙ rw (same, chunks_none batch_chunks)) v2 enc);
        reads = λ r st same. finish keys [] r derived (
            rw (two_more (length (content r)))
              (decrypt_empty _ _ (tag_size a) _ _ r e pos size st same len v2 refl dec));
      }

  Capsule-exists : (xs : Bytes) → All IsByte xs → length xs < 2 ^ 64 → Capsule xs
  Capsule-exists xs bytes bound =
      let (keys, derived) = derive_keys_total p a second hk laws ready in
      let law = λ (index : ℕ) (c : Bytes) (b : All IsByte c) (small : length c ≤ chunk_size).
        let s = chunk_round_trip p a keys base second hash index c laws ready b small in
        let t : (e : Bytes) × (encrypt_chunk p a keys base second hash index c ≡ ok e)
            × (decrypt_chunk p a keys base second hash index e ≡ ok c)
            × (length e ≡ length c + tag_size a) =
          (s.sealed, s.encrypted, s.decrypted, s.tagged) in
        t in
      elim (Bool-cases (is_empty xs && leb current_version version)) [
        | inl empty ↦
            let (e, enc, dec, len) = law 0 [] tt (omega arith) in
            let (nil, v2) = both xs version empty in
            subst Capsule (sym nil) (empty-Capsule keys e derived v2 enc dec (omega (arith, len)))
        | inr quiet ↦
            let (out, fr) =
              Framing-exists _ _ (tag_size a) law (length xs + 1) 0 xs bytes (omega arith)
                (omega arith) in
            framed-Capsule keys xs out derived bound quiet fr
      ]

-- The encryption of any plaintext of bytes, of fewer than 2^64, by a payload algorithm (with its second nonce, where
-- it needs one) succeeds, under either format version, and counts the plaintext: where no read fails and the
-- primitives keep their laws.
pub stream_encrypt_total :
    (p : Primitives) (a : AlgorithmId) (version : ℕ) (hk : Hkdf) (base : Bytes)
    (second : Option Bytes) (hash : Bytes) (xs : Bytes) (r : Reader)
    → Laws p
    → IsReady a second
    → All IsByte xs
    → length xs < 2 ^ 64
    → IsSteady r
    → content r ≡ xs
    → (out : Bytes) × (stream_encrypt_payload p a version hk base second hash r
        ≡ ok (out, length xs))
stream_encrypt_total p a version hk base second hash xs r laws ready bytes bound st same =
    let c = Capsule-exists p laws a version hk base second hash ready xs bytes bound in
    (c.out, c.writes r st same)

-- What the encryption stream wrote of a plaintext of fewer than 2^64 bytes, the decryption stream gives back, whole,
-- and the count is its length: for every payload algorithm (with its second nonce, where it needs one), format
-- version, key, nonce and commitment, whatever pieces the two readers deliver their bytes in, where no read fails
-- and the primitives keep their laws.
pub stream_decrypt-stream_encrypt :
    (p : Primitives) (a : AlgorithmId) (version : ℕ) (hk : Hkdf) (base : Bytes)
    (second : Option Bytes) (hash : Bytes) (xs out : Bytes) (n : ℕ) (r r' : Reader)
    → Laws p
    → IsReady a second
    → All IsByte xs
    → length xs < 2 ^ 64
    → IsSteady r
    → content r ≡ xs
    → stream_encrypt_payload p a version hk base second hash r ≡ ok (out, n)
    → IsSteady r'
    → content r' ≡ out
    → (n ≡ length xs) × (stream_decrypt_payload p a version hk base second hash n r' ≡ ok xs)
stream_decrypt-stream_encrypt p a version hk base second hash xs out n r r' laws ready bytes bound
      st same enc st' same' =
    let c = Capsule-exists p laws a version hk base second hash ready xs bytes bound in
    let e : ◌≡◌ {A = Result (Bytes × ℕ) CryptoError} (ok (c.out, length xs)) (ok (out, n)) =
      sym (c.writes r st same) ∙ enc in
    let count : n ≡ length xs = ground arith in
    let written : c.out ≡ out = ground arith in
    (count, rw count (c.reads r' st' (same' ∙ sym written)))
