-- ===== src/Envelope.antt =====
-- crates/lvau-protocol/src/envelope.rs: the types of a `.lvau` file's public part, and the check
-- of its magic bytes and version. Byte arrays and vectors are lists of numbers.
use lvau.Base.{ℕ, Bool, ◌&&◌, Option, none, some, List, String, leb, if◌then◌else◌}
use lvau.Base.Bytes.{Bytes, codes, bytes_eq}
use lvau.Error.{Result, ok, err}

abbrev pub magic_real : Bytes
magic_real = codes "LVAU"

abbrev pub legacy_version : ℕ
legacy_version = 1

abbrev pub current_version : ℕ
current_version = 2

pub data SecurityProfile : Type 0 where
  fast balanced archive paranoid extreme : SecurityProfile

pub data AlgorithmId : Type 0 where
  xchacha20_poly1305 cascade_aes_gcm_xchacha triple_cascade_aes_xchacha_lco : AlgorithmId
  x25519 ed25519 x25519_mlkem_hybrid ed25519_mldsa_hybrid : AlgorithmId

-- The enum has one variant, `Argon2id`.
pub record KdfParams : Type 0 where
  pub m_cost : ℕ
  pub t_cost : ℕ
  pub p_cost : ℕ
  pub salt : Bytes

pub data Recipient : Type 0 where
  -- nonce, encrypted_file_key
  password : Bytes → Bytes → Recipient
  -- ephemeral_public_x25519, mlkem_ciphertext, encrypted_file_key
  hybrid : Bytes → Bytes → Bytes → Recipient

pub data ContentType : Type 0 where
  single_file bundle : ContentType

pub record EnvelopeSignature : Type 0 where
  pub signer_fingerprint : Bytes
  pub signature : Bytes
  pub created_at : Option String
  pub comment : Option String

pub record ApprovalSignature : Type 0 where
  pub signer_fingerprint : Bytes
  pub signature : Bytes
  pub comment : Option String

pub record ReleaseMetadata : Type 0 where
  pub project_name : Option String
  pub version : Option String
  pub git_commit : Option String
  pub build_timestamp : Option String

pub record BundleEntry : Type 0 where
  pub relative_path : String
  pub size : ℕ
  pub blake3_hash : Bytes
  pub offset : ℕ

pub record BundleManifest : Type 0 where
  pub entries : List BundleEntry
  pub created_at : Option String
  pub tool_version : Option String

pub record EnvelopeHeader : Type 0 where
  pub magic : Bytes
  pub version : ℕ
  pub profile : SecurityProfile
  pub algorithm : AlgorithmId
  pub kdf : Option KdfParams
  pub recipients : List Recipient

pub record Envelope : Type 0 where
  pub header : EnvelopeHeader
  pub plaintext_len : ℕ
  pub nonce : Bytes
  pub secondary_nonce : Option Bytes
  pub aad_hash : Bytes
  pub metadata : Bytes
  pub content_type : Option ContentType
  pub signature : Option EnvelopeSignature
  pub public_label : Option String
  pub approvals : List ApprovalSignature
  pub release_metadata : Option ReleaseMetadata
  pub policy_overridden : Bool
  pub recovery_metadata : Option Bytes

-- `Envelope::validate`
unfoldable pub validate : Envelope → Result (Unit {0}) String
validate e =
    if bytes_eq e.header.magic magic_real
    then (if leb legacy_version e.header.version && leb e.header.version current_version
        then ok tt
        else err "Unsupported format version")
    else err "Invalid magic bytes, not a Lvau file"

abbrev content_type_or : ContentType → Option ContentType → ContentType
content_type_or d none = d
content_type_or d (some t) = t

-- `Envelope::effective_content_type`
unfoldable pub effective_content_type : Envelope → ContentType
effective_content_type e = content_type_or single_file e.content_type
