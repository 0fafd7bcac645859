-- ===== src/Capsule.antt =====
-- crates/lvau-core/src/crypto/mod.rs: the public envelope in front of the payload. The functions of other
-- crates (serialisation, Argon2id, X25519, ML-KEM) are the fields of `Backend`. Files stand for their bytes:
-- a function that writes one returns what it persists, and nothing is persisted on an error. The progress
-- callbacks and the logging are left out.
pub mod Encrypt
pub mod Decrypt
pub mod Written
pub mod Keys
pub mod Checked
pub mod Verify
pub mod Policed
pub mod Total
pub mod RoundTrip
pub mod Password
pub mod Keypair
use lvau.Base.{
  ℕ, zero, suc, ◌+◌, ◌-◌, ◌*◌, Bool, true, false, not, ◌&&◌, ◌||◌, Option, none, some, List, [],
  ◌∷◌, ◌++◌, String, length, is_empty, is_some, is_none, leb, ltb, ◌==◌, if◌then◌else◌,
}
use lvau.Base.Bytes.{Bytes, codes, bytes_eq, from_le_bytes}
use lvau.Error.{
  Result, ok, err, stuck, ◌>>=◌, ◌>>◌, require, map_err, CryptoError, io, serialization, validation,
  unexpected_eof, encryption_failed, decryption_failed, unsupported_profile,
}
use lvau.Envelope.{
  Envelope, EnvelopeHeader, KdfParams, Recipient, password, hybrid, ContentType, SecurityProfile,
  fast, balanced, archive, paranoid, extreme, AlgorithmId, xchacha20_poly1305,
  cascade_aes_gcm_xchacha, triple_cascade_aes_xchacha_lco, validate,
}
use lvau.Primitives.{Primitives}
use lvau.Reader.{Reader, fill}

-- The fields that a v2 commitment covers, `PayloadAadV2`.
pub record PayloadAadV2 : Type 0 where
  pub header : EnvelopeHeader
  pub plaintext_len : ℕ
  pub nonce : Bytes
  pub secondary_nonce : Option Bytes
  pub metadata : Bytes
  pub content_type : Option ContentType
  pub public_label : Option String
  pub policy_overridden : Bool

pub record LegacyEnvelopeV1 : Type 0 where
  pub header : EnvelopeHeader
  pub plaintext_len : ℕ
  pub nonce : Bytes
  pub secondary_nonce : Option Bytes
  pub aad_hash : Bytes
  pub metadata : Bytes

pub record Backend : Type 0 where
  pub prims : Primitives
  -- `postcard::to_allocvec` and `postcard::take_from_bytes`, with the text of their errors
  pub encode_envelope : Envelope → Result Bytes String
  pub encode_header : EnvelopeHeader → Result Bytes String
  pub encode_aad : PayloadAadV2 → Result Bytes String
  pub take_envelope : Bytes → Result (Envelope × Bytes) String
  pub take_legacy : Bytes → Result (LegacyEnvelopeV1 × Bytes) String
  pub bad_encoding : String
  -- Argon2id: whether the costs and a secret are accepted, and the hash of 32 bytes
  pub params_accepted : ℕ → ℕ → ℕ → Bool
  pub secret_accepted : Bytes → Bool
  pub argon2id : KdfParams → Option Bytes → Bytes → Option Bytes
  -- X25519: the public key of a secret, the shared secret and whether it is contributory
  pub x25519_public : Bytes → Bytes
  pub diffie_hellman : Bytes → Bytes → Bytes
  pub was_contributory : Bytes → Bool
  -- ML-KEM: ciphertext and secret from a public key and random bytes; whether a ciphertext has the right
  -- length; the secret from a private key
  pub encapsulate : Bytes → Bytes → Bytes × Bytes
  pub ciphertext_accepted : Bytes → Bool
  pub decapsulate : Bytes → Bytes → Bytes

abbrev pub max_envelope_size : ℕ
max_envelope_size = 1024 * 1024

abbrev max_recipients : ℕ
max_recipients = 64

abbrev pub payload_aad_v2_domain : Bytes
payload_aad_v2_domain = codes "Lvau payload AAD v2" ++ (0 ∷ [])

-- `LegacyEnvelopeV1` into `Envelope`
abbrev pub from_legacy : LegacyEnvelopeV1 → Envelope
from_legacy legacy = record {
  header = legacy.header;
  plaintext_len = legacy.plaintext_len;
  nonce = legacy.nonce;
  secondary_nonce = legacy.secondary_nonce;
  aad_hash = legacy.aad_hash;
  metadata = legacy.metadata;
  content_type = none;
  signature = none;
  public_label = none;
  approvals = [];
  release_metadata = none;
  policy_overridden = false;
  recovery_metadata = none;
}

abbrev pub aad_of : Envelope → PayloadAadV2
aad_of e = record {
  header = e.header;
  plaintext_len = e.plaintext_len;
  nonce = e.nonce;
  secondary_nonce = e.secondary_nonce;
  metadata = e.metadata;
  content_type = e.content_type;
  public_label = e.public_label;
  policy_overridden = e.policy_overridden;
}

unfoldable pub compute_aad_hash : Backend → Envelope → Result Bytes CryptoError
compute_aad_hash b e =
    if e.header.version == 1
    then (map_err serialization (b.encode_header e.header) >>= λ h. ok (b.prims.sha256 h))
    else if e.header.version == 2
    then (map_err serialization (b.encode_aad (aad_of e)) >>= λ a.
        ok (b.prims.sha256 (payload_aad_v2_domain ++ a)))
    else err (validation "Unsupported format version")

-- The Argon2id costs of a profile: m, t, p.
unfoldable pub expected_argon2_costs : SecurityProfile → ℕ × ℕ × ℕ
expected_argon2_costs fast = (16384, 1, 1)
expected_argon2_costs balanced = (65536, 2, 1)
expected_argon2_costs archive = (262144, 3, 2)
expected_argon2_costs paranoid = (1048576, 4, 4)
expected_argon2_costs extreme = (1048576, 4, 4)

-- The `matches!` tests.
unfoldable pub is_payload_algorithm : AlgorithmId → Bool
is_payload_algorithm xchacha20_poly1305 = true
is_payload_algorithm cascade_aes_gcm_xchacha = true
is_payload_algorithm triple_cascade_aes_xchacha_lco = true
is_payload_algorithm _ = false

unfoldable pub needs_secondary_nonce : AlgorithmId → Bool
needs_secondary_nonce cascade_aes_gcm_xchacha = true
needs_secondary_nonce triple_cascade_aes_xchacha_lco = true
needs_secondary_nonce _ = false

unfoldable pub is_password : Recipient → Bool
is_password (password n k) = true
is_password (hybrid x m k) = false

pub count_passwords : List Recipient → ℕ
count_passwords [] = 0
count_passwords (r ∷ rs) = (if is_password r then 1 else 0) + count_passwords rs

unfoldable pub wrapped_key : Recipient → Bytes
wrapped_key (password n k) = k
wrapped_key (hybrid x m k) = k

-- The loop over the recipients.
pub check_wrapped_keys : List Recipient → Result (Unit {0}) CryptoError
check_wrapped_keys [] = ok tt
check_wrapped_keys (r ∷ rs) = do
  require (length (wrapped_key r) == 48) (validation "Invalid wrapped file-key length")
  check_wrapped_keys rs

-- The parameters of a capsule with password recipients, and of one without.
pub check_kdf : Bool → Option KdfParams → SecurityProfile → Result (Unit {0}) CryptoError
check_kdf true none profile = err (validation "Password recipient is missing Argon2id parameters")
check_kdf true (some k) profile =
    let (m, t, p) = expected_argon2_costs profile in
    require (k.m_cost == m && (k.t_cost == t && k.p_cost == p))
      (validation "Argon2id parameters do not match the security profile")
check_kdf false kdf profile =
    require (is_none kdf) (validation "Key-pair envelope must not include password KDF parameters")

abbrev same_bool : Bool → Bool → Bool
same_bool true b = b
same_bool false b = not b

unfoldable pub validate_envelope_resources : Envelope → Result (Unit {0}) CryptoError
validate_envelope_resources e = do
  let rs = e.header.recipients
  let passwords = count_passwords rs
  require (not (is_empty rs)) (validation "Envelope has no recipients")
  require (leb (length rs) max_recipients) (validation "Envelope has too many recipients")
  require (is_payload_algorithm e.header.algorithm)
      (validation "Unsupported payload encryption algorithm")
  require (passwords == 0 || length rs - passwords == 0)
      (validation "Mixed password and key-pair recipients are unsupported")
  check_wrapped_keys rs
  check_kdf (ltb 0 passwords) e.header.kdf e.header.profile
  require (same_bool (needs_secondary_nonce e.header.algorithm) (is_some e.secondary_nonce))
      (validation "Secondary nonce does not match the payload algorithm")

pub verify_aad_hash : Backend → Envelope → Result (Unit {0}) CryptoError
verify_aad_hash b e = do
  computed ← compute_aad_hash b e
  require (bytes_eq computed e.aad_hash) (validation "Envelope header authentication data mismatch")

-- `decode_postcard_exact`
abbrev pub exact : {A : Type 0} → Backend → Result (A × Bytes) String → Result A String
exact b (ok (value, remaining)) = if is_empty remaining then ok value else err b.bad_encoding
exact b (err e) = err e
exact b stuck = stuck

-- `Err(current_error) => { … }`: the current format's outcome, and that of the format v1.
abbrev pub or_legacy :
    Result Envelope String → Result LegacyEnvelopeV1 String → Result Envelope CryptoError
or_legacy (ok e) legacy = ok e
or_legacy (err current_error) (ok legacy) = ok (from_legacy legacy)
or_legacy (err current_error) (err e) = err (serialization current_error)
or_legacy (err current_error) stuck = stuck
or_legacy stuck legacy = stuck

pub decode_any : Backend → Bytes → Result Envelope CryptoError
decode_any b bytes = or_legacy (exact b (b.take_envelope bytes)) (exact b (b.take_legacy bytes))

pub decode_envelope_bytes : Backend → Bytes → Result Envelope CryptoError
decode_envelope_bytes b bytes = do
  e ← decode_any b bytes
  map_err validation (validate e)
  validate_envelope_resources e
  verify_aad_hash b e
  ok e

-- `Read::read_exact`
unfoldable pub read_exact : ℕ → Reader → Result (Bytes × Reader) CryptoError
read_exact n r = do
  (bytes, r') ← fill n r
  require (length bytes == n) (io unexpected_eof)
  ok (bytes, r')

unfoldable pub read_envelope : Backend → Reader → Result (Envelope × Reader) CryptoError
read_envelope b r = do
  (len_buf, r1) ← read_exact 4 r
  let env_len = from_le_bytes len_buf
  require (not (env_len == 0)) (validation "Envelope is empty")
  require (leb env_len max_envelope_size) (validation "Envelope too large")
  (env_bytes, r2) ← read_exact env_len r1
  e ← decode_envelope_bytes b env_bytes
  ok (e, r2)
