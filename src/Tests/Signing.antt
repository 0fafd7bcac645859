-- ===== src/Tests/Signing.antt =====
-- A capsule that is signed, approved and given metadata.
use lvau.Base.{◌≡◌, ◌↔◌, refl, true, false, none, some, [], ◌∷◌, ◌++◌, replicate, drop}
use lvau.Base.Bytes.{Bytes, to_le_bytes}
use lvau.Error.{ok}
use lvau.Envelope.{Envelope}
use lvau.Capsule.RoundTrip.{Decodes}
use lvau.Artifact.{decode_capsule_envelope, encode_capsule, encode_envelope_checked}
use lvau.Artifact.Repack.{OpensAlike}
use lvau.Signing.{
  key_fingerprint, author_of, with_author, author_signature_v2_domain, author_statement,
  approval_of, with_approval, author_signature_message, approval_signature_message, sign_file,
  verify_signature, has_signature, add_approval_seal, verify_approvals,
}
use lvau.Signing.Valid.{Accepted, verify_signature_iff}
use lvau.Signing.Author.{verify_signature-sign_file}
use lvau.Signing.Approval.{verify_approvals-add_approval_seal, verify_signature-add_approval_seal}
use lvau.Signing.Bound.{author_signature_message_injective}
use lvau.Release.{
  with_release, with_recovery, attach_release_metadata, attach_recovery_metadata, envelope_error,
}
use lvau.Release.Attach.{Attached, attach_release_metadata_lem, attach_recovery_metadata_lem}
use lvau.Tests.Signed.{
  plain_envelope, toy_artifact, toy_signing, toy-SigningLaws, toy_release, payload, capsule,
  plain_file, plain_capsule, plain_parts, tags, signature_tag, untags, signature_from,
}

abbrev signed_file : Bytes
signed_file = capsule (2 ∷ 0 ∷ 0 ∷ 0 ∷ [])

abbrev approved_file : Bytes
approved_file = capsule (0 ∷ 1 ∷ 0 ∷ 0 ∷ [])

abbrev key : Bytes
key = 5 ∷ []

author-Decodes :
    (message : Bytes)
    → Decodes toy_artifact (
        with_author plain_envelope
          (author_of toy_signing key none none (toy_signing.sign key message)))
unfolding tags signature_tag untags signature_from key_fingerprint
author-Decodes message bytes h =
    let same : tags
          (with_author plain_envelope (author_of toy_signing key none none (replicate 64 3)))
        ≡ bytes =
      cc in
    rw (← same) refl

approval-Decodes :
    (message : Bytes)
    → Decodes toy_artifact (
        with_approval plain_envelope
          (approval_of toy_signing key none (toy_signing.sign key message)))
unfolding tags signature_tag untags signature_from key_fingerprint
approval-Decodes message bytes h =
    let same : tags
          (with_approval plain_envelope (approval_of toy_signing key none (replicate 64 3)))
        ≡ bytes =
      cc in
    rw (← same) refl

signs : sign_file toy_signing false false key none none plain_file ≡ ok signed_file
unfolding sign_file author_signature_message encode_capsule encode_envelope_checked tags
    signature_tag to_le_bytes
signs = rw plain_parts refl

approves : add_approval_seal toy_signing true true key none plain_file ≡ ok approved_file
unfolding add_approval_seal approval_signature_message encode_capsule encode_envelope_checked tags
    signature_tag to_le_bytes
approves = rw plain_parts refl

verify_signature-sign_file_example :
    (verify_signature toy_signing signed_file (1 ∷ 5 ∷ [])
      ≡ ok (key_fingerprint toy_signing (1 ∷ 5 ∷ [])))
    × (has_signature toy_signing signed_file ≡ ok (some (key_fingerprint toy_signing (1 ∷ 5 ∷ []))))
    × OpensAlike toy_artifact plain_file signed_file
verify_signature-sign_file_example =
    verify_signature-sign_file toy_signing plain_envelope payload key none none false false
      plain_file signed_file toy-SigningLaws author-Decodes plain_parts signs

verify_approvals-add_approval_seal_example :
    (verify_approvals toy_signing approved_file (1 ∷ 5 ∷ []) ≡ ok true)
    × OpensAlike toy_artifact plain_file approved_file
verify_approvals-add_approval_seal_example =
    verify_approvals-add_approval_seal toy_signing plain_envelope payload key none true true
      plain_file approved_file toy-SigningLaws (λ comment. ([], refl)) approval-Decodes plain_parts
      approves

verify_signature-add_approval_seal_example :
    verify_signature toy_signing approved_file (1 ∷ 6 ∷ [])
    ≡ verify_signature toy_signing plain_file (1 ∷ 6 ∷ [])
verify_signature-add_approval_seal_example =
    verify_signature-add_approval_seal toy_signing plain_envelope payload key (1 ∷ 6 ∷ []) none true
      true plain_file approved_file approval-Decodes plain_parts refl approves

verify_signature_iff_example :
    (verify_signature toy_signing signed_file (1 ∷ 5 ∷ []) ≡ ok (replicate 32 9))
    ↔ Accepted toy_signing signed_file (1 ∷ 5 ∷ []) (replicate 32 9)
verify_signature_iff_example =
    verify_signature_iff toy_signing signed_file (1 ∷ 5 ∷ []) (replicate 32 9)

abbrev author_envelope : Envelope
author_envelope = with_author plain_envelope (author_of toy_signing key none none (replicate 64 3))

author_signature_message_injective_example :
    (author_statement author_envelope (author_of toy_signing key none none (replicate 64 3))
      ≡ author_statement author_envelope (author_of toy_signing key none none (replicate 64 3)))
    × (payload ≡ payload)
unfolding tags signature_tag untags signature_from key_fingerprint author_signature_message
author_signature_message_injective_example =
    author_signature_message_injective toy_artifact author_envelope author_envelope
      (author_of toy_signing key none none (replicate 64 3))
      (author_of toy_signing key none none (replicate 64 3)) payload payload
      (author_signature_v2_domain ++ (1 ∷ 0 ∷ 0 ∷ 0 ∷ payload))
      (λ bytes rest h. statement_taken bytes rest h) (λ bytes rest h. statement_taken bytes rest h)
      refl refl refl refl refl refl
  where
    statement_taken :
        (bytes rest : Bytes)
        → toy_artifact.encode_envelope (
            author_statement author_envelope (author_of toy_signing key none none (replicate 64 3)))
          ≡ ok bytes
        → toy_artifact.take_envelope (bytes ++ rest)
          ≡ ok (
            author_statement author_envelope (author_of toy_signing key none none (replicate 64 3)),
            rest,
          )
    statement_taken bytes rest h = let same : (1 ∷ 0 ∷ 0 ∷ 0 ∷ []) ≡ bytes = cc in rw (← same) refl

release-Decodes : Decodes toy_artifact (with_release plain_envelope toy_release)
unfolding tags signature_tag untags signature_from
release-Decodes bytes h = let same : (0 ∷ 0 ∷ 1 ∷ 0 ∷ []) ≡ bytes = cc in rw (← same) refl

recovery-Decodes : Decodes toy_artifact (with_recovery plain_envelope (7 ∷ []))
unfolding tags signature_tag untags signature_from
recovery-Decodes bytes h = let same : (0 ∷ 0 ∷ 0 ∷ 1 ∷ []) ≡ bytes = cc in rw (← same) refl

plain_decodes :
    decode_capsule_envelope toy_artifact envelope_error plain_file
    ≡ ok (plain_envelope, (plain_capsule envelope_error).0)
plain_decodes = let (end_, decoded, rest) = plain_capsule envelope_error in decoded

attaches :
    attach_release_metadata toy_artifact none none none none plain_file
    ≡ ok (capsule (0 ∷ 0 ∷ 1 ∷ 0 ∷ []))
unfolding attach_release_metadata encode_capsule encode_envelope_checked tags signature_tag
    to_le_bytes
attaches = let (end_, decoded, rest) = plain_capsule envelope_error in rw (decoded, rest) refl

attaches_recovery :
    attach_recovery_metadata toy_artifact (7 ∷ []) plain_file ≡ ok (capsule (0 ∷ 0 ∷ 0 ∷ 1 ∷ []))
unfolding attach_recovery_metadata encode_capsule encode_envelope_checked tags signature_tag
    to_le_bytes
attaches_recovery =
    let (end_, decoded, rest) = plain_capsule envelope_error in rw (decoded, rest) refl

attach_release_metadata_lem_example :
    Attached toy_artifact plain_file
      (capsule (0 ∷ 0 ∷ 1 ∷ 0 ∷ []))
      (with_release plain_envelope toy_release)
      (drop (plain_capsule envelope_error).0 plain_file)
attach_release_metadata_lem_example =
    attach_release_metadata_lem toy_artifact plain_file (capsule (0 ∷ 0 ∷ 1 ∷ 0 ∷ []))
      plain_envelope (plain_capsule envelope_error).0 toy_release release-Decodes plain_decodes
      attaches

attach_recovery_metadata_run :
    Attached toy_artifact plain_file
      (capsule (0 ∷ 0 ∷ 0 ∷ 1 ∷ []))
      (with_recovery plain_envelope (7 ∷ []))
      (drop (plain_capsule envelope_error).0 plain_file)
attach_recovery_metadata_run =
    attach_recovery_metadata_lem toy_artifact plain_file (capsule (0 ∷ 0 ∷ 0 ∷ 1 ∷ [])) (7 ∷ [])
      plain_envelope (plain_capsule envelope_error).0 recovery-Decodes plain_decodes
      attaches_recovery
