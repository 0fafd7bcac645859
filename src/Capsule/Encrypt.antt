-- ===== src/Capsule/Encrypt.antt =====
-- Encryption in crates/lvau-core/src/crypto/mod.rs, for a password and for key pairs. What the source draws
-- from the system's random generator is an argument, and a file's length and bytes are.
use lvau.Base.{
  ℕ, ◌^◌, Bool, true, not, ◌&&◌, ◌||◌, Option, none, some, List, [], ◌∷◌, ◌++◌, String, length,
  is_empty, replicate, all, leb, ltb, ◌==◌, if◌then◌else◌,
}
use Prim.Native.String
use lvau.Base.Bytes.{Bytes, codes, to_le_bytes}
use lvau.Error.{
  Result, ok, ◌>>=◌, ◌>>◌, require, ok_or, map_err, CryptoError, serialization, validation,
  encryption_failed, decryption_failed, unsupported_profile, policy_violation,
}
use lvau.Envelope.{
  Envelope, EnvelopeHeader, KdfParams, Recipient, password, hybrid, ContentType, SecurityProfile,
  fast, balanced, archive, paranoid, extreme, AlgorithmId, xchacha20_poly1305,
  cascade_aes_gcm_xchacha, triple_cascade_aes_xchacha_lco, magic_real, current_version,
}
use lvau.Primitives.{Hkdf}
use lvau.KeySchedule.{key_wrap, derive_subkey}
use lvau.Reader.{Reader}
use lvau.Payload.Stream.{stream_encrypt_payload}
use lvau.Policy.{CapsulePolicy, Finding, is_valid}
use lvau.Policy.Rules.{lint_envelope}
use lvau.Capsule.{
  Backend, max_envelope_size, compute_aad_hash, needs_secondary_nonce, validate_envelope_resources,
}

-- `Hkdf::<Sha256>::new(None, ikm)`
abbrev pub hkdf : Bytes → Hkdf
hkdf key = record { salt = none; ikm = key }

unfoldable pub derive_master_key :
    Backend → Bytes → Option Bytes → KdfParams → Result Bytes CryptoError
derive_master_key b pass seed kdf = do
  require (b.params_accepted kdf.m_cost kdf.t_cost kdf.p_cost) unsupported_profile
  require (elim seed [ none ↦ true | some s ↦ b.secret_accepted s ]) encryption_failed
  ok_or (b.argon2id kdf seed pass) decryption_failed

unfoldable pub wrap_key_xchacha : Backend → Bytes → Bytes → Bytes → Result Bytes CryptoError
wrap_key_xchacha b key_to_wrap wrapping_key nonce =
    ok_or (b.prims.xchacha.encrypt wrapping_key nonce [] key_to_wrap) encryption_failed

-- The algorithm that a profile selects.
unfoldable pub algorithm_for : SecurityProfile → AlgorithmId
algorithm_for extreme = triple_cascade_aes_xchacha_lco
algorithm_for paranoid = cascade_aes_gcm_xchacha
algorithm_for _ = xchacha20_poly1305

-- What a run draws: some of it only by some profiles.
pub record Draws : Type 0 where
  pub salt : Bytes
  pub fek : Bytes
  pub wrap_nonce : Bytes
  pub nonce : Bytes
  pub secondary : Bytes

-- The second nonce, drawn where the algorithm needs it.
abbrev pub secondary_for : AlgorithmId → Bytes → Option Bytes
secondary_for a sn = if needs_secondary_nonce a then some sn else none

-- The Argon2id costs that encryption uses: a table of its own, beside `expected_argon2_costs`.
unfoldable pub profile_costs : SecurityProfile → ℕ × ℕ × ℕ
profile_costs fast = (16384, 1, 1)
profile_costs balanced = (65536, 2, 1)
profile_costs archive = (262144, 3, 2)
profile_costs paranoid = (1048576, 4, 4)
profile_costs extreme = (1048576, 4, 4)

unfoldable pub kdf_for : SecurityProfile → Bytes → KdfParams
kdf_for profile salt =
    let (m, t, p) = profile_costs profile in
    record { m_cost = m; t_cost = t; p_cost = p; salt = salt }

-- The envelope before its commitment is filled in, from its header.
abbrev pub draft : EnvelopeHeader → ℕ → Bytes → Option Bytes → Option ContentType → Bool → Envelope
draft header len nonce second content_type overridden = record {
  header = header;
  plaintext_len = len;
  nonce = nonce;
  secondary_nonce = second;
  aad_hash = replicate 32 0;
  metadata = [];
  content_type = content_type;
  signature = none;
  public_label = none;
  approvals = [];
  release_metadata = none;
  policy_overridden = overridden;
  recovery_metadata = none;
}

abbrev pub with_hash : Envelope → Bytes → Envelope
with_hash e hash = record e { aad_hash = hash }

-- `.join(", ")`
pub join_messages : List Finding → String
join_messages [] = ""
join_messages (v ∷ []) = v.message
join_messages (v ∷ w ∷ vs) = String.◌++◌ v.message (String.◌++◌ ", " (join_messages (w ∷ vs)))

unfoldable pub check_policy : Option CapsulePolicy → Bool → Envelope → Result (Unit {0}) CryptoError
check_policy none overridden e = ok tt
check_policy (some p) overridden e =
    let result = lint_envelope e p in
    require (is_valid result || overridden) (policy_violation (join_messages result.violations))

-- The bytes of the file: the envelope's length, the envelope, the payload.
unfoldable pub write_envelope_and_payload :
    Backend → Envelope → Hkdf → Reader → Result Bytes CryptoError
write_envelope_and_payload b e hk r = do
  encoded ← map_err serialization (b.encode_envelope e)
  require (not (is_empty encoded) && leb (length encoded) max_envelope_size)
      (validation "Envelope size is invalid")
  require (ltb (length encoded) (2 ^ 32)) (validation "Envelope size is invalid")
  (payload, _) ←
      stream_encrypt_payload b.prims e.header.algorithm e.header.version hk e.nonce
        e.secondary_nonce e.aad_hash r
  ok (to_le_bytes 4 (length encoded) ++ (encoded ++ payload))

-- The end of both encryptions, from the draft on.
unfoldable pub seal :
    Backend → Envelope → Bytes → Option CapsulePolicy → Bool → Reader → Result Bytes CryptoError
seal b draft_envelope fek policy overridden r = do
  hash ← compute_aad_hash b draft_envelope
  let e = with_hash draft_envelope hash
  validate_envelope_resources e
  check_policy policy overridden e
  write_envelope_and_payload b e (hkdf fek) r

abbrev pub password_header : SecurityProfile → Draws → Bytes → EnvelopeHeader
password_header profile d wrapped = record {
  magic = magic_real;
  version = current_version;
  profile = profile;
  algorithm = algorithm_for profile;
  kdf = some (kdf_for profile d.salt);
  recipients = password d.wrap_nonce wrapped ∷ [];
}

-- `encrypt_file_password_with_content_type`; `encrypt_file_password` calls it with no content type.
unfoldable pub encrypt_file_password :
    Backend
    → Draws
    → ℕ
    → Reader
    → Bytes
    → Option Bytes
    → SecurityProfile
    → Option CapsulePolicy
    → Bool
    → Option ContentType
    → Result Bytes CryptoError
encrypt_file_password b d len r pass seed profile policy overridden content_type = do
  require (not (is_empty pass)) (validation "Password must not be empty")
  require (elim seed [ none ↦ true | some s ↦ not (is_empty s) ])
      (validation "Seed must not be empty")
  master ← derive_master_key b pass seed (kdf_for profile d.salt)
  kwk ← derive_subkey b.prims (hkdf master) key_wrap
  wrapped ← wrap_key_xchacha b d.fek kwk d.wrap_nonce
  seal b
      (draft (password_header profile d wrapped) len d.nonce
        (secondary_for (algorithm_for profile) d.secondary) content_type overridden)
      d.fek policy overridden r

-- Every byte is zero.
abbrev pub all_zero : Bytes → Bool
all_zero = all (λ x. x == 0)

unfoldable pub derive_contributory_x25519 : Backend → Bytes → Bytes → Result Bytes CryptoError
derive_contributory_x25519 b secret public = do
  require (not (all_zero public)) (validation "Recipient X25519 public key is non-contributory")
  let shared = b.diffie_hellman secret public
  require (b.was_contributory shared) (validation "Recipient X25519 public key is non-contributory")
  ok shared

pub record HybridPublicKey : Type 0 where
  pub x25519 : Bytes
  pub mlkem : Bytes

-- What is drawn for one recipient: the ephemeral secret, and the input of the encapsulation.
pub record RecipientDraws : Type 0 where
  pub ephemeral : Bytes
  pub encapsulation : Bytes

abbrev pub hybrid_wrap_label : Bytes
hybrid_wrap_label = codes "Lvau-Hybrid-Wrap"

unfoldable pub wrap_for :
    Backend → Bytes → HybridPublicKey → RecipientDraws → Result Recipient CryptoError
wrap_for b fek key d = do
  x25519_ss ← derive_contributory_x25519 b d.ephemeral key.x25519
  let (mlkem_ct, mlkem_ss) = b.encapsulate key.mlkem d.encapsulation
  kwk ← ok_or (b.prims.expand (hkdf (x25519_ss ++ mlkem_ss)) hybrid_wrap_label 32) encryption_failed
  wrapped ← wrap_key_xchacha b fek kwk (replicate 24 0)
  ok (hybrid (b.x25519_public d.ephemeral) mlkem_ct wrapped)

-- The loop over the recipients' keys, each with its draws.
unfoldable pub wrap_all :
    Backend → Bytes → List (HybridPublicKey × RecipientDraws) → Result (List Recipient) CryptoError
wrap_all b fek [] = ok []
wrap_all b fek ((key, d) ∷ rest) = do
  recipient ← wrap_for b fek key d
  recipients ← wrap_all b fek rest
  ok (recipient ∷ recipients)

abbrev pub hybrid_header : SecurityProfile → List Recipient → EnvelopeHeader
hybrid_header profile recipients = record {
  magic = magic_real;
  version = current_version;
  profile = profile;
  algorithm = algorithm_for profile;
  kdf = none;
  recipients = recipients;
}

-- `encrypt_file_keypairs_with_content_type`; `encrypt_file_keypairs` calls it with no content type.
unfoldable pub encrypt_file_keypairs :
    Backend
    → Draws
    → ℕ
    → Reader
    → List (HybridPublicKey × RecipientDraws)
    → SecurityProfile
    → Option CapsulePolicy
    → Bool
    → Option ContentType
    → Result Bytes CryptoError
encrypt_file_keypairs b d len r keys profile policy overridden content_type = do
  recipients ← wrap_all b d.fek keys
  seal b
      (draft (hybrid_header profile recipients) len d.nonce
        (secondary_for (algorithm_for profile) d.secondary) content_type overridden)
      d.fek policy overridden r
