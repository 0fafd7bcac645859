-- ===== src/Suite/V3.antt =====
-- crates/lvau-core/src/crypto/suite/v3.rs: keys, nonces, associated data and single chunks of format v3.
pub mod RoundTrip
pub mod Distinct
use lvau.Base.{
  ℕ, ◌+◌, ◌*◌, ◌^◌, Bool, true, false, not, some, [], ◌∷◌, ◌++◌, String, length, leb, ltb, ◌==◌,
  if◌then◌else◌,
}
use lvau.Base.Bytes.{Bytes, codes, to_le_bytes}
use lvau.Error.{
  Result, ok, ◌>>=◌, ◌>>◌, require, ok_or, CryptoError, validation, encryption_failed,
  decryption_failed,
}
use lvau.Primitives.{Primitives, Hkdf}
use lvau.Suite.{V3SuiteId, v3_xchacha20_poly1305, v3_aes256_gcm_siv_xchacha20_poly1305}

abbrev pub key_schedule_domain : Bytes
key_schedule_domain = codes "Lvau v3 key schedule" ++ (0 ∷ [])

abbrev pub subkey_info_domain : Bytes
subkey_info_domain = codes "Lvau v3 subkey" ++ (0 ∷ [])

abbrev pub nonce_schedule_domain : Bytes
nonce_schedule_domain = codes "Lvau v3 nonce schedule" ++ (0 ∷ [])

abbrev pub chunk_aad_domain : Bytes
chunk_aad_domain = codes "Lvau v3 chunk AAD" ++ (0 ∷ [])

abbrev pub xchacha_tag_len : ℕ
xchacha_tag_len = 16

abbrev pub v3_max_chunk_plaintext_len : ℕ
v3_max_chunk_plaintext_len = 1024 * 1024

pub data V3Layer : Type 0 where
  single inner outer : V3Layer

-- `layer as u8`
unfoldable pub layer_code : V3Layer → ℕ
layer_code single = 1
layer_code inner = 2
layer_code outer = 3

pub data V3KeyPurpose : Type 0 where
  payload_single payload_inner_aes256_gcm_siv payload_outer_xchacha20_poly1305 : V3KeyPurpose
  recipient_wrap envelope_commitment bundle_manifest padding exporter : V3KeyPurpose

unfoldable pub label : V3KeyPurpose → Bytes
label payload_single = codes "payload-single"
label payload_inner_aes256_gcm_siv = codes "payload-inner-aes-256-gcm-siv"
label payload_outer_xchacha20_poly1305 = codes "payload-outer-xchacha20-poly1305"
label recipient_wrap = codes "recipient-wrap"
label envelope_commitment = codes "envelope-commitment"
label bundle_manifest = codes "bundle-manifest"
label padding = codes "padding"
label exporter = codes "exporter"

pub record V3ChunkDescriptor : Type 0 where
  pub index : ℕ
  pub plaintext_len : ℕ
  pub final_chunk : Bool

unfoldable pub validate_plaintext_len : ℕ → Result ℕ CryptoError
validate_plaintext_len plaintext_len = do
  require (leb plaintext_len v3_max_chunk_plaintext_len)
      (validation "v3 chunk plaintext exceeds the format limit")
  ok plaintext_len

-- `V3ChunkDescriptor::new`
unfoldable pub new_descriptor : ℕ → ℕ → Bool → Result V3ChunkDescriptor CryptoError
new_descriptor index plaintext_len final_chunk = do
  require (ltb plaintext_len (2 ^ 32)) (validation "v3 chunk plaintext is too large")
  _ ← validate_plaintext_len plaintext_len
  ok (record { index = index; plaintext_len = plaintext_len; final_chunk = final_chunk })

unfoldable pub suite_wire_name : V3SuiteId → Bytes
suite_wire_name v3_xchacha20_poly1305 = codes "LV3-XC20P"
suite_wire_name v3_aes256_gcm_siv_xchacha20_poly1305 = codes "LV3-AESGCMSIV-XC20P"

unfoldable pub suite_code : V3SuiteId → ℕ
suite_code v3_xchacha20_poly1305 = 1
suite_code v3_aes256_gcm_siv_xchacha20_poly1305 = 2

-- The text that a subkey is derived under.
unfoldable pub subkey_info : V3SuiteId → V3KeyPurpose → Bytes
subkey_info suite purpose = subkey_info_domain ++ (suite_wire_name suite ++ (0 ∷ label purpose))

unfoldable pub derive_subkey :
    Primitives → Bytes → V3SuiteId → V3KeyPurpose → Result Bytes CryptoError
derive_subkey p root_key suite purpose =
    ok_or
      (p.expand (record { salt = some key_schedule_domain; ikm = root_key })
        (subkey_info suite purpose) 32)
      encryption_failed

-- The ten bytes that a nonce is derived under.
unfoldable pub nonce_info : V3SuiteId → V3Layer → ℕ → Bytes
nonce_info suite layer chunk_index = suite_code suite ∷ layer_code layer ∷ to_le_bytes 8 chunk_index

unfoldable pub derive_nonce :
    Primitives → ℕ → Bytes → V3SuiteId → V3Layer → ℕ → Result Bytes CryptoError
derive_nonce p n base_nonce suite layer chunk_index =
    ok_or
      (p.expand (record { salt = some nonce_schedule_domain; ikm = base_nonce })
        (nonce_info suite layer chunk_index) n)
      encryption_failed

unfoldable pub derive_xchacha_nonce :
    Primitives → Bytes → V3SuiteId → V3Layer → ℕ → Result Bytes CryptoError
derive_xchacha_nonce p base_nonce suite layer chunk_index =
    derive_nonce p 24 base_nonce suite layer chunk_index

unfoldable pub derive_aes_gcm_siv_nonce : Primitives → Bytes → ℕ → Result Bytes CryptoError
derive_aes_gcm_siv_nonce p base_nonce chunk_index =
    derive_nonce p 12 base_nonce v3_aes256_gcm_siv_xchacha20_poly1305 inner chunk_index

-- `u8::from`
abbrev pub flag : Bool → ℕ
flag true = 1
flag false = 0

unfoldable pub chunk_aad : V3SuiteId → V3Layer → Bytes → V3ChunkDescriptor → ℕ → ℕ → Bytes
chunk_aad suite layer commitment descriptor inner_len ciphertext_len =
    chunk_aad_domain
    ++ (suite_code suite
        ∷ layer_code layer
        ∷ (commitment
            ++ (to_le_bytes 8 descriptor.index
                ++ (to_le_bytes 4 descriptor.plaintext_len
                    ++ (to_le_bytes 4 inner_len
                        ++ (to_le_bytes 4 ciphertext_len ++ (flag descriptor.final_chunk ∷ [])))))))

unfoldable pub checked_single_layer_ciphertext_len : ℕ → Result ℕ CryptoError
checked_single_layer_ciphertext_len plaintext_len = do
  require (ltb (plaintext_len + xchacha_tag_len) (2 ^ 32))
      (validation "v3 chunk ciphertext length overflow")
  ok (plaintext_len + xchacha_tag_len)

unfoldable pub encrypt_xchacha_chunk :
    Primitives → Bytes → Bytes → Bytes → V3ChunkDescriptor → Bytes → Result Bytes CryptoError
encrypt_xchacha_chunk p root_key base_nonce commitment descriptor plaintext = do
  plaintext_len ← validate_plaintext_len descriptor.plaintext_len
  require (length plaintext == plaintext_len)
      (validation "v3 chunk plaintext length does not match its descriptor")
  let suite = v3_xchacha20_poly1305
  ciphertext_len ← checked_single_layer_ciphertext_len descriptor.plaintext_len
  let aad = chunk_aad suite single commitment descriptor 0 ciphertext_len
  key ← derive_subkey p root_key suite payload_single
  nonce ← derive_xchacha_nonce p base_nonce suite single descriptor.index
  ok_or (p.xchacha.encrypt key nonce aad plaintext) encryption_failed

unfoldable pub decrypt_xchacha_chunk :
    Primitives → Bytes → Bytes → Bytes → V3ChunkDescriptor → Bytes → Result Bytes CryptoError
decrypt_xchacha_chunk p root_key base_nonce commitment descriptor ciphertext = do
  plaintext_len ← validate_plaintext_len descriptor.plaintext_len
  expected_len ← checked_single_layer_ciphertext_len descriptor.plaintext_len
  require (ltb (length ciphertext) (2 ^ 32)) (validation "v3 chunk ciphertext is too large")
  require (length ciphertext == expected_len) decryption_failed
  let suite = v3_xchacha20_poly1305
  let aad = chunk_aad suite single commitment descriptor 0 expected_len
  key ← derive_subkey p root_key suite payload_single
  nonce ← derive_xchacha_nonce p base_nonce suite single descriptor.index
  plaintext ← ok_or (p.xchacha.decrypt key nonce aad ciphertext) decryption_failed
  require (length plaintext == plaintext_len) decryption_failed
  ok plaintext
