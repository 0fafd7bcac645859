-- ===== src/Suite/V3/Distinct.antt =====
-- Keys, nonces and associated data of format v3 are bound to all that they are made for.
use lvau.Base.{
  ℕ, ◌^◌, ◌<◌, ◌≡◌, refl, sym, ap, ◌∙◌, Bool, [], ◌∷◌, ◌++◌, length, arith, append-injective,
}
use lvau.Base.Bytes.{
  Bytes, codes, to_le_bytes, from_le_bytes, length-to_le_bytes, from_le_bytes-to_le_bytes,
}
use lvau.Suite.{V3SuiteId, v3_xchacha20_poly1305, v3_aes256_gcm_siv_xchacha20_poly1305}
use lvau.Suite.V3.{
  V3Layer, layer_code, V3KeyPurpose, label, V3ChunkDescriptor, suite_wire_name, suite_code,
  subkey_info_domain, subkey_info, nonce_info, chunk_aad_domain, flag, chunk_aad,
}

label_injective : (a b : V3KeyPurpose) → label a ≡ label b → a ≡ b
unfolding label
label_injective a b h = ground arith

names_injective :
    (suite suite' : V3SuiteId) (a b : V3KeyPurpose)
    → suite_wire_name suite ++ (0 ∷ label a) ≡ suite_wire_name suite' ++ (0 ∷ label b)
    → (suite ≡ suite') × (a ≡ b)
unfolding suite_wire_name
names_injective v3_xchacha20_poly1305 v3_xchacha20_poly1305 a b h =
    let name = codes "LV3-XC20P" in
    let (_, rest) = append-injective name name refl h in (refl, label_injective a b (cc))
names_injective v3_xchacha20_poly1305 v3_aes256_gcm_siv_xchacha20_poly1305 a b h = ground arith
names_injective v3_aes256_gcm_siv_xchacha20_poly1305 v3_xchacha20_poly1305 a b h = ground arith
names_injective v3_aes256_gcm_siv_xchacha20_poly1305 v3_aes256_gcm_siv_xchacha20_poly1305 a b h =
    let name = codes "LV3-AESGCMSIV-XC20P" in
    let (_, rest) = append-injective name name refl h in (refl, label_injective a b (cc))

-- Two derivations of a subkey under one text are for one suite and one purpose.
pub subkey_info_injective :
    (suite suite' : V3SuiteId) (a b : V3KeyPurpose)
    → subkey_info suite a ≡ subkey_info suite' b
    → (suite ≡ suite') × (a ≡ b)
unfolding subkey_info
subkey_info_injective suite suite' a b h =
    let (_, h1) = append-injective subkey_info_domain subkey_info_domain refl h in
    names_injective suite suite' a b h1

suite_code_injective : (a b : V3SuiteId) → suite_code a ≡ suite_code b → a ≡ b
unfolding suite_code
suite_code_injective a b h = ground arith

layer_code_injective : (a b : V3Layer) → layer_code a ≡ layer_code b → a ≡ b
unfolding layer_code
layer_code_injective a b h = ground arith

flag_injective : (a b : Bool) → flag a ≡ flag b → a ≡ b
flag_injective a b h = ground arith

to_le_bytes_injective :
    (n i j : ℕ) → i < 256 ^ n → j < 256 ^ n → to_le_bytes n i ≡ to_le_bytes n j → i ≡ j
to_le_bytes_injective n i j hi hj p =
    sym (from_le_bytes-to_le_bytes n i hi) ∙ ap from_le_bytes p ∙ from_le_bytes-to_le_bytes n j hj

-- Two nonces derived under one text are for one suite, one layer and, where the indices are below 2^64, one chunk.
pub nonce_info_injective :
    (suite suite' : V3SuiteId) (layer layer' : V3Layer) (i j : ℕ)
    → i < 2 ^ 64
    → j < 2 ^ 64
    → nonce_info suite layer i ≡ nonce_info suite' layer' j
    → (suite ≡ suite') × (layer ≡ layer') × (i ≡ j)
unfolding nonce_info
nonce_info_injective suite suite' layer layer' i j hi hj h = (
  suite_code_injective suite suite' (cc),
  layer_code_injective layer layer' (cc),
  to_le_bytes_injective 8 i j (omega arith) (omega arith) (cc),
)

-- An integer field in front of the rest.
field_injective :
    (n i j : ℕ) {us vs : Bytes}
    → i < 256 ^ n
    → j < 256 ^ n
    → to_le_bytes n i ++ us ≡ to_le_bytes n j ++ vs
    → (i ≡ j) × (us ≡ vs)
field_injective n i j hi hj h =
    let (same, rest) =
      append-injective (to_le_bytes n i) (to_le_bytes n j)
        (length-to_le_bytes n i ∙ sym (length-to_le_bytes n j)) h in
    (to_le_bytes_injective n i j hi hj same, rest)

-- A descriptor whose fields are machine integers.
pub record IsDescriptor (d : V3ChunkDescriptor) : Type 0 where
  pub small_index : d.index < 2 ^ 64
  pub small_len : d.plaintext_len < 2 ^ 32

-- The associated data of a v3 chunk, from a commitment of 32 bytes and integers of the widths of the source,
-- determines the suite, the layer, the commitment, the descriptor and both lengths.
pub chunk_aad_injective_v3 :
    (suite suite' : V3SuiteId) (layer layer' : V3Layer) (c c' : Bytes) (d d' : V3ChunkDescriptor)
    (inner_len inner_len' ciphertext_len ciphertext_len' : ℕ)
    → length c ≡ 32
    → length c' ≡ 32
    → IsDescriptor d
    → IsDescriptor d'
    → inner_len < 2 ^ 32
    → inner_len' < 2 ^ 32
    → ciphertext_len < 2 ^ 32
    → ciphertext_len' < 2 ^ 32
    → chunk_aad suite layer c d inner_len ciphertext_len
      ≡ chunk_aad suite' layer' c' d' inner_len' ciphertext_len'
    → (suite ≡ suite')
      × (layer ≡ layer')
      × (c ≡ c')
      × (d ≡ d')
      × (inner_len ≡ inner_len')
      × (ciphertext_len ≡ ciphertext_len')
unfolding chunk_aad
chunk_aad_injective_v3 suite suite' layer layer' c c' d d' n n' m m' hc hc' hd hd' hn hn' hm hm' h =
    let (_, h0) = append-injective chunk_aad_domain chunk_aad_domain refl h in
    let (codes_eq, h1) =
      append-injective (suite_code suite ∷ layer_code layer ∷ [])
        (suite_code suite' ∷ layer_code layer' ∷ []) refl h0 in
    let (same_c, h2) = append-injective c c' (hc ∙ sym hc') h1 in
    let (same_i, h3) =
      field_injective 8 d.index d'.index (omega (arith, hd.small_index))
        (omega (arith, hd'.small_index)) h2 in
    let (same_p, h4) =
      field_injective 4 d.plaintext_len d'.plaintext_len (omega (arith, hd.small_len))
        (omega (arith, hd'.small_len)) h3 in
    let (same_n, h5) = field_injective 4 n n' (omega arith) (omega arith) h4 in
    let (same_m, h6) = field_injective 4 m m' (omega arith) (omega arith) h5 in
    let same_f : d.final_chunk ≡ d'.final_chunk =
      flag_injective d.final_chunk d'.final_chunk (cc) in
    (
      suite_code_injective suite suite' (cc),
      layer_code_injective layer layer' (cc),
      same_c,
      descriptor_eq d d' same_i same_p same_f,
      same_n,
      same_m,
    )
  where
    descriptor_eq :
        (d d' : V3ChunkDescriptor)
        → d.index ≡ d'.index
        → d.plaintext_len ≡ d'.plaintext_len
        → d.final_chunk ≡ d'.final_chunk
        → d ≡ d'
    descriptor_eq d d' hi hp hf =
        λ i. record { index = hi i; plaintext_len = hp i; final_chunk = hf i }
