-- ===== src/Signing.antt =====
-- crates/lvau-core/src/signing.rs: author signatures and approval seals. Ed25519 and the serialiser of a
-- comment are other crates, the fields of `SigningBackend`. A file stands for its bytes: a function that writes
-- one takes whether the output exists, and returns the bytes. Key files are left out.
pub mod Accepts
pub mod Author
pub mod Valid
pub mod Approval
pub mod Bound
use lvau.Base.{
  ℕ, ◌≡◌, Bool, true, false, not, ◌&&◌, ◌||◌, Option, none, some, List, [], ◌∷◌, ◌++◌, String,
  length, drop, leb, ltb, ◌==◌, if◌then◌else◌, map,
}
use lvau.Base.Bytes.{Bytes, codes, bytes_eq}
use lvau.Error.{Result, ok, err, stuck, ◌>>=◌, ◌>>◌, require, ok_or, map_err, IoErrorKind}
use lvau.Envelope.{Envelope, EnvelopeSignature, ApprovalSignature, current_version}
use lvau.Capsule.{Backend}
use lvau.Artifact.{decode_capsule_envelope, encode_capsule}

pub data SigningError : Type 0 where
  io : IoErrorKind → SigningError
  serialization : String → SigningError
  verification_failed : SigningError
  invalid_key : String → SigningError
  invalid_envelope output_exists not_signed : SigningError

pub record SigningBackend : Type 0 where
  pub backend : Backend
  -- Ed25519: the public key of a signing key, a signature of 64 bytes, and whether one verifies
  pub verifying_key : Bytes → Bytes
  pub sign : Bytes → Bytes → Bytes
  pub verify : Bytes → Bytes → Bytes → Bool
  -- `postcard::to_allocvec` of an optional comment
  pub encode_comment : Option String → Result Bytes String

-- A signature is 64 bytes, and verifies under the public key of the key that made it.
pub record SigningLaws (s : SigningBackend) : Type 0 where
  pub length-sign : (key message : Bytes) → length (s.sign key message) ≡ 64
  pub verify-sign :
      (key message : Bytes) → s.verify (s.verifying_key key) message (s.sign key message) ≡ true

abbrev pub author_signature_v2_domain : Bytes
author_signature_v2_domain = codes "Lvau author signature v2" ++ (0 ∷ [])

abbrev pub approval_signature_v2_domain : Bytes
approval_signature_v2_domain = codes "Lvau approval signature v2" ++ (0 ∷ [])

abbrev pub approval_artifact_v2_domain : Bytes
approval_artifact_v2_domain = codes "Lvau approval artifact v2" ++ (0 ∷ [])

unfoldable pub decode_capsule_parts : Backend → Bytes → Result (Envelope × Bytes) SigningError
decode_capsule_parts b file = do
  (e, envelope_end) ← decode_capsule_envelope b invalid_envelope file
  ok (e, drop envelope_end file)

unfoldable pub key_fingerprint : SigningBackend → Bytes → Bytes
key_fingerprint s verify_key = s.backend.prims.sha256 verify_key

-- The statement that an author signs: the signature's bytes and the approvals are cleared.
abbrev pub author_statement : Envelope → EnvelopeSignature → Envelope
author_statement e signature = record e {
  signature = some (record signature { signature = [] });
  approvals = [];
}

unfoldable pub author_signature_message : Backend → Envelope → Bytes → Result Bytes SigningError
author_signature_message b e ciphertext =
    if leb current_version e.header.version
    then (do
      signature ← ok_or e.signature not_signed
      bytes ← map_err serialization (b.encode_envelope (author_statement e signature))
      ok (author_signature_v2_domain ++ (bytes ++ ciphertext)))
    else (do
      bytes ← map_err serialization (b.encode_envelope (record e { signature = none }))
      ok (bytes ++ ciphertext))

unfoldable pub approval_signature_message :
    SigningBackend → Envelope → Bytes → ApprovalSignature → Result Bytes SigningError
approval_signature_message s e ciphertext approval =
    if ltb e.header.version current_version then ok e.aad_hash else (do
      artifact_bytes ←
          map_err serialization (s.backend.encode_envelope (record e { approvals = [] }))
      comment_bytes ← map_err serialization (s.encode_comment approval.comment)
      let artifact_digest =
          s.backend.prims.sha256 (approval_artifact_v2_domain ++ (artifact_bytes ++ ciphertext))
      ok (
          approval_signature_v2_domain
          ++ (artifact_digest ++ (approval.signer_fingerprint ++ comment_bytes))))

-- A signature before and after its bytes are known.
abbrev pub author_of :
    SigningBackend → Bytes → Option String → Option String → Bytes → EnvelopeSignature
author_of s key created_at comment bytes = record {
  signer_fingerprint = key_fingerprint s (s.verifying_key key);
  signature = bytes;
  created_at = created_at;
  comment = comment;
}

abbrev pub with_author : Envelope → EnvelopeSignature → Envelope
with_author e signature = record e { signature = some signature }

-- `out_exists` is `out_file.exists()`, `created_at` the time of the system's clock.
unfoldable pub sign_file :
    SigningBackend
    → Bool
    → Bool
    → Bytes
    → Option String
    → Option String
    → Bytes
    → Result Bytes SigningError
sign_file s out_exists force key created_at comment file = do
  require (not (out_exists && not force)) output_exists
  (e, ciphertext) ← decode_capsule_parts s.backend file
  message ←
      author_signature_message s.backend (with_author e (author_of s key created_at comment []))
        ciphertext
  let signed = with_author e (author_of s key created_at comment (s.sign key message))
  encode_capsule s.backend serialization invalid_envelope signed ciphertext

unfoldable pub verify_signature : SigningBackend → Bytes → Bytes → Result Bytes SigningError
verify_signature s file verify_key = do
  (e, ciphertext) ← decode_capsule_parts s.backend file
  sig_data ← ok_or e.signature not_signed
  require (length sig_data.signature == 64) verification_failed
  let actual_fingerprint = key_fingerprint s verify_key
  require (bytes_eq sig_data.signer_fingerprint actual_fingerprint) verification_failed
  message ← author_signature_message s.backend e ciphertext
  require (s.verify verify_key message sig_data.signature) verification_failed
  ok actual_fingerprint

abbrev fingerprint_of : Option EnvelopeSignature → Option Bytes
fingerprint_of none = none
fingerprint_of (some signature) = some signature.signer_fingerprint

unfoldable pub has_signature : SigningBackend → Bytes → Result (Option Bytes) SigningError
has_signature s file = do
  (e, _) ← decode_capsule_parts s.backend file
  ok (fingerprint_of e.signature)

abbrev pub approval_of : SigningBackend → Bytes → Option String → Bytes → ApprovalSignature
approval_of s key comment bytes = record {
  signer_fingerprint = key_fingerprint s (s.verifying_key key);
  signature = bytes;
  comment = comment;
}

abbrev pub with_approval : Envelope → ApprovalSignature → Envelope
with_approval e approval = record e { approvals = e.approvals ++ (approval ∷ []) }

unfoldable pub add_approval_seal :
    SigningBackend → Bool → Bool → Bytes → Option String → Bytes → Result Bytes SigningError
add_approval_seal s out_exists force key comment file = do
  require (not (out_exists && not force)) output_exists
  (e, ciphertext) ← decode_capsule_parts s.backend file
  message ← approval_signature_message s e ciphertext (approval_of s key comment [])
  let approved = with_approval e (approval_of s key comment (s.sign key message))
  encode_capsule s.backend serialization invalid_envelope approved ciphertext

-- One round of the loop: the message is built where the key and the length fit.
unfoldable pub approval_is_valid :
    SigningBackend → Envelope → Bytes → Bytes → ApprovalSignature → Result Bool SigningError
approval_is_valid s e ciphertext verify_key approval =
    if bytes_eq approval.signer_fingerprint (key_fingerprint s verify_key)
      && length approval.signature == 64
    then (approval_signature_message s e ciphertext approval >>= λ message.
        ok (s.verify verify_key message approval.signature))
    else ok false

-- The loop over the approvals: `found_valid` so far comes with it.
unfoldable pub any_valid :
    SigningBackend
    → Envelope
    → Bytes
    → Bytes
    → Bool
    → List ApprovalSignature
    → Result Bool SigningError
any_valid s e ciphertext verify_key found_valid [] = ok found_valid
any_valid s e ciphertext verify_key found_valid (approval ∷ rest) = do
  valid ← approval_is_valid s e ciphertext verify_key approval
  any_valid s e ciphertext verify_key (valid || found_valid) rest

unfoldable pub verify_approvals : SigningBackend → Bytes → Bytes → Result Bool SigningError
verify_approvals s file verify_key = do
  (e, ciphertext) ← decode_capsule_parts s.backend file
  any_valid s e ciphertext verify_key false e.approvals
