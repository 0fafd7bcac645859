-- ===== src/Tests/Signed.antt =====
-- One small capsule over a codec that tells the uncommitted fields apart, for signatures and metadata.
use lvau.Base.{
  ℕ, zero, suc, ◌≡◌, refl, true, false, Option, none, some, [], ◌∷◌, ◌++◌, String, length, drop,
  replicate, is_empty, is_some, arith, inl, if◌then◌else◌,
}
use lvau.Base.Bytes.{Bytes, bytes_eq, to_le_bytes}
use lvau.Error.{Result, ok, err}
use lvau.Envelope.{
  Envelope, EnvelopeSignature, ApprovalSignature, ReleaseMetadata, password, fast,
  xchacha20_poly1305, magic_real, validate,
}
use lvau.Capsule.{
  Backend, compute_aad_hash, decode_envelope_bytes, expected_argon2_costs, is_password, wrapped_key,
}
use lvau.Capsule.Checked.{Acceptable, validate_envelope_resources_iff}
use lvau.Capsule.Written.{decode_from}
use lvau.Artifact.{decode_capsule_envelope, encode_capsule, encode_envelope_checked}
use lvau.Artifact.Repack.{decode-encode_capsule}
use lvau.Signing.{
  SigningBackend, SigningLaws, serialization, invalid_envelope, decode_capsule_parts,
}
use lvau.Tests.Toy.{toy_backend}

abbrev pub plain_envelope : Envelope
plain_envelope = record {
  header = record {
    magic = magic_real;
    version = 2;
    profile = fast;
    algorithm = xchacha20_poly1305;
    kdf = some (record { m_cost = 16384; t_cost = 1; p_cost = 1; salt = [] });
    recipients = password [] (replicate 48 1) ∷ [];
  };
  plaintext_len = 2;
  nonce = replicate 24 0;
  secondary_nonce = none;
  aad_hash = replicate 32 9;
  metadata = [];
  content_type = none;
  signature = none;
  public_label = none;
  approvals = [];
  release_metadata = none;
  policy_overridden = false;
  recovery_metadata = none;
}

abbrev toy_signature : Bytes → EnvelopeSignature
toy_signature bytes = record {
  signer_fingerprint = replicate 32 9;
  signature = bytes;
  created_at = none;
  comment = none;
}

abbrev toy_approval : ApprovalSignature
toy_approval = record {
  signer_fingerprint = replicate 32 9;
  signature = replicate 64 3;
  comment = none;
}

abbrev pub toy_release : ReleaseMetadata
toy_release = record {
  project_name = none;
  version = none;
  git_commit = none;
  build_timestamp = none;
}

-- One number for each uncommitted field.
unfoldable pub signature_tag : Option EnvelopeSignature → ℕ
signature_tag none = 0
signature_tag (some s) = if is_empty s.signature then 1 else 2

unfoldable pub signature_from : ℕ → Option EnvelopeSignature
signature_from zero = none
signature_from (suc zero) = some (toy_signature [])
signature_from (suc (suc n)) = some (toy_signature (replicate 64 3))

unfoldable pub tags : Envelope → Bytes
tags e =
    signature_tag e.signature
    ∷ length e.approvals
    ∷ (if is_some e.release_metadata then 1 else 0)
    ∷ (if is_some e.recovery_metadata then 1 else 0)
    ∷ []

abbrev when_one {ℓ} : {A : Type ℓ} → ℕ → A → Option A
when_one zero a = none
when_one (suc n) a = some a

unfoldable pub untags : Bytes → Result (Envelope × Bytes) String
untags (a ∷ n ∷ r ∷ m ∷ rest) = ok (
  record plain_envelope {
    signature = signature_from a;
    approvals = replicate n toy_approval;
    release_metadata = when_one r toy_release;
    recovery_metadata = when_one m (7 ∷ []);
  },
  rest,
)
untags _ = err "too short"

abbrev pub toy_artifact : Backend
toy_artifact = record (toy_backend (λ w. plain_envelope)) {
  encode_envelope = λ e. ok (tags e);
  take_envelope = untags;
}

abbrev pub toy_signing : SigningBackend
toy_signing = record {
  backend = toy_artifact;
  verifying_key = λ key. 1 ∷ key;
  sign = λ key message. replicate 64 3;
  verify = λ key message signature. true;
  encode_comment = λ comment. ok [];
}

pub toy-SigningLaws : SigningLaws toy_signing
toy-SigningLaws = record { length-sign = λ key message. refl; verify-sign = λ key message. refl }

abbrev pub payload : Bytes
payload = 42 ∷ 43 ∷ []

-- A capsule of the small envelope with the given tags.
abbrev pub capsule : Bytes → Bytes
capsule tags_ = 4 ∷ 0 ∷ 0 ∷ 0 ∷ (tags_ ++ payload)

abbrev pub plain_file : Bytes
plain_file = capsule (0 ∷ 0 ∷ 0 ∷ 0 ∷ [])

plain-Acceptable : Acceptable plain_envelope
unfolding is_password wrapped_key expected_argon2_costs
plain-Acceptable = record {
  inhabited = omega arith;
  bounded = omega arith;
  wrapped = (refl, tt);
  uniform = inl ((refl, tt), (refl, refl, refl));
  fitting = refl;
}

plain_decoded :
    (bytes : Bytes)
    → toy_artifact.encode_envelope plain_envelope ≡ ok bytes
    → decode_envelope_bytes toy_artifact bytes ≡ ok plain_envelope
unfolding validate compute_aad_hash bytes_eq tags signature_tag untags signature_from
plain_decoded bytes h =
    let same : tags plain_envelope ≡ bytes = cc in
    decode_from toy_artifact bytes plain_envelope (replicate 32 9) (rw (← same) refl) refl
      ((validate_envelope_resources_iff plain_envelope).1 plain-Acceptable) refl refl

pub plain_capsule :
    {E : Type 0} (error : E)
    → (end_ : ℕ) × (decode_capsule_envelope toy_artifact error plain_file
        ≡ ok (plain_envelope, end_))
      × (drop end_ plain_file ≡ payload)
unfolding encode_capsule encode_envelope_checked tags signature_tag to_le_bytes
plain_capsule error =
    decode-encode_capsule toy_artifact serialization invalid_envelope error plain_envelope payload
      plain_file refl plain_decoded

pub plain_parts : decode_capsule_parts toy_artifact plain_file ≡ ok (plain_envelope, payload)
unfolding decode_capsule_parts
plain_parts = let (end_, decoded, rest) = plain_capsule invalid_envelope in rw (decoded, rest) refl
