-- ===== src/Suite/V3/RoundTrip.antt =====
-- A v3 chunk: what encryption makes, decryption opens; and the lengths that either accepts.
use lvau.Base.{
  ℕ, ◌+◌, ◌^◌, ◌≤◌, ◌≡◌, refl, sym, ap, ◌∙◌, true, some, length, leb, leb→le, ltb, lt→ltb, ◌==◌,
  ==_iff, arith, All,
}
use lvau.Base.Bytes.{Bytes, IsByte}
use lvau.Error.{
  ok_injective, ok, require, ok_or, >>=-eq-ok, require-eq-ok, validation, decryption_failed,
}
use lvau.Primitives.{Primitives, Laws, ExpandLaw}
use lvau.Suite.{V3SuiteId, v3_xchacha20_poly1305}
use lvau.Suite.V3.{
  single, V3Layer, V3KeyPurpose, payload_single, V3ChunkDescriptor, v3_max_chunk_plaintext_len,
  key_schedule_domain, nonce_schedule_domain, validate_plaintext_len, subkey_info, nonce_info,
  derive_subkey, derive_nonce, derive_xchacha_nonce, chunk_aad, checked_single_layer_ciphertext_len,
  encrypt_xchacha_chunk, decrypt_xchacha_chunk,
}

derive_subkey_total :
    (p : Primitives) (root_key : Bytes) (suite : V3SuiteId) (purpose : V3KeyPurpose)
    → ExpandLaw p
    → (key : Bytes) × (derive_subkey p root_key suite purpose ≡ ok key)
unfolding derive_subkey
derive_subkey_total p root_key suite purpose law =
    let (key, made, _) =
      law (record { salt = some key_schedule_domain; ikm = root_key }) (subkey_info suite purpose)
        32 (omega arith) in
    (key, rw made refl)

derive_xchacha_nonce_total :
    (p : Primitives) (base_nonce : Bytes) (suite : V3SuiteId) (layer : V3Layer) (i : ℕ)
    → ExpandLaw p
    → (nonce : Bytes) × (derive_xchacha_nonce p base_nonce suite layer i ≡ ok nonce)
unfolding derive_xchacha_nonce derive_nonce
derive_xchacha_nonce_total p base_nonce suite layer i law =
    let (nonce, made, _) =
      law (record { salt = some nonce_schedule_domain; ikm = base_nonce })
        (nonce_info suite layer i) 24 (omega arith) in
    (nonce, rw made refl)

validate_plaintext_len_lem :
    (n : ℕ) → n ≤ v3_max_chunk_plaintext_len → validate_plaintext_len n ≡ ok n
unfolding validate_plaintext_len
validate_plaintext_len_lem n h =
    let small : leb n v3_max_chunk_plaintext_len ≡ true = ground arith in rw small refl

ciphertext_len_lem :
    (n : ℕ) → n ≤ v3_max_chunk_plaintext_len → checked_single_layer_ciphertext_len n ≡ ok (n + 16)
unfolding checked_single_layer_ciphertext_len
ciphertext_len_lem n h = rw (lt→ltb (n + 16) (2 ^ 32) (omega arith)) refl

-- A chunk of at most 1 MiB under a descriptor of its length is encrypted, to 16 bytes more, and decryption under
-- the same keys, nonce, commitment and descriptor gives it back. The cipher and HKDF have to follow their laws.
pub decrypt-encrypt_xchacha_chunk :
    (p : Primitives) (root_key base_nonce commitment plaintext : Bytes) (d : V3ChunkDescriptor)
    → Laws p
    → All IsByte plaintext
    → length plaintext ≡ d.plaintext_len
    → d.plaintext_len ≤ v3_max_chunk_plaintext_len
    → (sealed : Bytes) × (encrypt_xchacha_chunk p root_key base_nonce commitment d plaintext
        ≡ ok sealed)
      × (length sealed ≡ length plaintext + 16)
      × (decrypt_xchacha_chunk p root_key base_nonce commitment d sealed ≡ ok plaintext)
unfolding encrypt_xchacha_chunk decrypt_xchacha_chunk
decrypt-encrypt_xchacha_chunk p root_key base_nonce commitment plaintext d laws bytes same small =
    let n = d.plaintext_len in
    let (key, derived) =
      derive_subkey_total p root_key v3_xchacha20_poly1305 payload_single laws.expand_law in
    let (nonce, drawn) =
      derive_xchacha_nonce_total p base_nonce v3_xchacha20_poly1305 single d.index
        laws.expand_law in
    let aad = chunk_aad v3_xchacha20_poly1305 single commitment d 0 (n + 16) in
    let s = laws.xchacha_laws key nonce aad plaintext bytes (omega (arith, same, small)) in
    let valid = validate_plaintext_len_lem n small in
    let len = ciphertext_len_lem n small in
    let fits : ltb (length s.sealed) (2 ^ 32) ≡ true =
      lt→ltb (length s.sealed) (2 ^ 32) (omega (arith, s.tagged, same, small)) in
    let expected : (length s.sealed == n + 16) ≡ true =
      (==_iff (length s.sealed) (n + 16)).1 (omega (arith, s.tagged, same)) in
    let whole : (length plaintext == n) ≡ true = (==_iff (length plaintext) n).1 same in
    (
      s.sealed,
      rw (valid, whole, len, derived, drawn, s.encrypted) refl,
      s.tagged,
      rw (valid, len, fits, expected, derived, drawn, s.decrypted, whole) refl,
    )

validate_plaintext_len-eq-ok :
    (n v : ℕ) → validate_plaintext_len n ≡ ok v → (n ≤ v3_max_chunk_plaintext_len) × (v ≡ n)
unfolding validate_plaintext_len
validate_plaintext_len-eq-ok n v h =
    let (_, c, h1) =
      >>=-eq-ok
        (require (leb n v3_max_chunk_plaintext_len)
          (validation "v3 chunk plaintext exceeds the format limit"))
        _ h in
    (leb→le n v3_max_chunk_plaintext_len (require-eq-ok _ _ c), ok_injective (ok v) refl (sym h1))

ciphertext_len-eq-ok : (n v : ℕ) → checked_single_layer_ciphertext_len n ≡ ok v → v ≡ n + 16
unfolding checked_single_layer_ciphertext_len
ciphertext_len-eq-ok n v h =
    let (_, c, h1) =
      >>=-eq-ok (require (ltb (n + 16) (2 ^ 32)) (validation "v3 chunk ciphertext length overflow"))
        _ h in
    ok_injective (ok v) refl (sym h1)

-- What a v3 chunk that was opened is known to satisfy.
abbrev pub HasLengths : V3ChunkDescriptor → Bytes → Bytes → Type 0
HasLengths d ciphertext plaintext =
    (d.plaintext_len ≤ v3_max_chunk_plaintext_len)
    × (length ciphertext ≡ d.plaintext_len + 16)
    × (length plaintext ≡ d.plaintext_len)

-- Whatever the keys, the cipher and the ciphertext are, a v3 chunk that decryption accepts is declared as at most
-- 1 MiB, its ciphertext is 16 bytes longer than declared, and the plaintext is as long as declared.
pub decrypt_xchacha_chunk-HasLengths :
    (p : Primitives) (root_key base_nonce commitment ciphertext plaintext : Bytes)
    (d : V3ChunkDescriptor)
    → decrypt_xchacha_chunk p root_key base_nonce commitment d ciphertext ≡ ok plaintext
    → HasLengths d ciphertext plaintext
unfolding decrypt_xchacha_chunk
decrypt_xchacha_chunk-HasLengths p root_key base_nonce commitment ciphertext plaintext d h =
    let (n, c1, h1) = >>=-eq-ok (validate_plaintext_len d.plaintext_len) _ h in
    let (m, c2, h2) = >>=-eq-ok (checked_single_layer_ciphertext_len d.plaintext_len) _ h1 in
    let (_, c3, h3) =
      >>=-eq-ok
        (require (ltb (length ciphertext) (2 ^ 32)) (validation "v3 chunk ciphertext is too large"))
        _ h2 in
    let (_, c4, h4) = >>=-eq-ok (require (length ciphertext == m) decryption_failed) _ h3 in
    let (key, c5, h5) =
      >>=-eq-ok (derive_subkey p root_key v3_xchacha20_poly1305 payload_single) _ h4 in
    let (nonce, c6, h6) =
      >>=-eq-ok (derive_xchacha_nonce p base_nonce v3_xchacha20_poly1305 single d.index) _ h5 in
    let aad = chunk_aad v3_xchacha20_poly1305 single commitment d 0 m in
    let (found, c7, h7) =
      >>=-eq-ok (ok_or (p.xchacha.decrypt key nonce aad ciphertext) decryption_failed) _ h6 in
    let (_, c8, h8) = >>=-eq-ok (require (length found == n) decryption_failed) _ h7 in
    let (small, n_eq) = validate_plaintext_len-eq-ok d.plaintext_len n c1 in
    let sealed_len = (==_iff (length ciphertext) m).0 (require-eq-ok _ _ c4) in
    let found_len = (==_iff (length found) n).0 (require-eq-ok _ _ c8) in
    let same : found ≡ plaintext = ok_injective (ok found) refl h8 in
    (
      small,
      sealed_len ∙ ciphertext_len-eq-ok d.plaintext_len m c2,
      ap length (sym same) ∙ found_len ∙ n_eq,
    )
