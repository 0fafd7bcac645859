-- ===== src/Signing/Approval.antt =====
-- An approval that was added is found, and the author's signature under it stays valid.
use lvau.Base.{
  ◌≡◌, refl, ◌∙◌, Bool, true, false, not, ◌&&◌, ◌||◌, Bool-cases, inl, inr, Option, List, [], ◌∷◌,
  ◌++◌, String, length, ltb, ◌==◌, ==_iff,
}
use lvau.Base.Bytes.{Bytes, bytes_eq, bytes_eq_iff}
use lvau.Error.{ok, map_err, require, >>=-eq-ok, map_err-eq-ok}
use lvau.Envelope.{Envelope, ApprovalSignature, current_version}
use lvau.Capsule.RoundTrip.{Decodes}
use lvau.Artifact.Repack.{OpensAlike}
use lvau.Signing.{
  serialization, SigningBackend, SigningLaws, output_exists, decode_capsule_parts, key_fingerprint,
  approval_signature_v2_domain, approval_artifact_v2_domain, approval_of, with_approval,
  author_signature_message, approval_signature_message, approval_is_valid, any_valid,
  add_approval_seal, verify_approvals, verify_signature,
}
use lvau.Signing.Accepts.{Replaced, replace_lem}

-- The serialiser of comments never fails.
abbrev pub EncodesComments : SigningBackend → Type 0
EncodesComments s =
    (comment : Option String) → (bytes : Bytes) × (s.encode_comment comment ≡ ok bytes)

-- The message of one approval was built: then that of every other one can be.
messages_lem :
    (s : SigningBackend) (e : Envelope) (ciphertext : Bytes) (approval other : ApprovalSignature)
    (message : Bytes)
    → EncodesComments s
    → approval_signature_message s e ciphertext approval ≡ ok message
    → (m : Bytes) × (approval_signature_message s e ciphertext other ≡ ok m)
unfolding approval_signature_message
messages_lem s e ciphertext approval other message comments built =
    elim (Bool-cases (ltb e.header.version current_version)) [
      | inl old ↦ (e.aad_hash, rw old refl)
      | inr new ↦
          let (bytes, c, h) =
            >>=-eq-ok
              (map_err serialization (s.backend.encode_envelope (record e { approvals = [] }))) _
              (rw new at built) in
          let encodes = map_err-eq-ok serialization _ c in
          let (comment_bytes, encodes') = comments other.comment in
          (
            approval_signature_v2_domain
                ++ (s.backend.prims.sha256 (approval_artifact_v2_domain ++ (bytes ++ ciphertext))
                    ++ (other.signer_fingerprint ++ comment_bytes)),
            rw (new, encodes, encodes') refl,
          )
    ]

round_lem :
    (s : SigningBackend) (e : Envelope) (ciphertext verify_key : Bytes)
    (approval : ApprovalSignature)
    → ((a : ApprovalSignature) → (m : Bytes) × (approval_signature_message s e ciphertext a ≡ ok m))
    → (valid : Bool) × (approval_is_valid s e ciphertext verify_key approval ≡ ok valid)
unfolding approval_is_valid
round_lem s e ciphertext verify_key approval built =
    elim (Bool-cases (
      bytes_eq approval.signer_fingerprint (key_fingerprint s verify_key)
      && length approval.signature == 64)) [
        | inl fits ↦
            let (m, h) = built approval in
            (s.verify verify_key m approval.signature, rw (fits, h) refl)
        | inr other ↦ (false, rw other refl)
      ]

orb_true : (b : Bool) → (b || true) ≡ true
orb_true true = refl
orb_true false = refl

-- A valid approval at the end of the list is found, whatever was found before.
any_valid_last :
    (s : SigningBackend) (e : Envelope) (ciphertext verify_key : Bytes) (found_valid : Bool)
    (approvals : List ApprovalSignature) (approval : ApprovalSignature)
    → ((a : ApprovalSignature) → (m : Bytes) × (approval_signature_message s e ciphertext a ≡ ok m))
    → approval_is_valid s e ciphertext verify_key approval ≡ ok true
    → any_valid s e ciphertext verify_key found_valid (approvals ++ (approval ∷ [])) ≡ ok true
unfolding any_valid
any_valid_last s e ciphertext verify_key found_valid [] approval built valid = rw valid refl
any_valid_last s e ciphertext verify_key found_valid (a ∷ as') approval built valid =
    let (v, h) = round_lem s e ciphertext verify_key a built in
    rw h (any_valid_last s e ciphertext verify_key (v || found_valid) as' approval built valid)

same_message :
    (s : SigningBackend) (e : Envelope) (ciphertext : Bytes) (added approval : ApprovalSignature)
    → approval_signature_message s (with_approval e added) ciphertext approval
      ≡ approval_signature_message s e ciphertext approval
unfolding approval_signature_message
same_message s e ciphertext added approval = refl

same_bytes :
    (s : SigningBackend) (e : Envelope) (ciphertext key sig : Bytes) (comment : Option String)
    → approval_signature_message s e ciphertext (approval_of s key comment sig)
      ≡ approval_signature_message s e ciphertext (approval_of s key comment [])
unfolding approval_signature_message
same_bytes s e ciphertext key sig comment = refl

same_author :
    (s : SigningBackend) (e : Envelope) (ciphertext : Bytes) (added : ApprovalSignature)
    → e.header.version ≡ current_version
    → author_signature_message s.backend (with_approval e added) ciphertext
      ≡ author_signature_message s.backend e ciphertext
unfolding author_signature_message
same_author s e ciphertext added version = rw version refl

-- What `add_approval_seal` has done where it returned a file.
record Approved (s : SigningBackend) (e : Envelope) (ciphertext key : Bytes)
    (comment : Option String) (file approved : Bytes) : Type 0 where
  pub message : Bytes
  pub states : approval_signature_message s e ciphertext (approval_of s key comment []) ≡ ok message
  pub replaced :
      Replaced s file approved
        (with_approval e (approval_of s key comment (s.sign key message)))
        ciphertext

sealed_lem :
    (s : SigningBackend) (e : Envelope) (ciphertext key : Bytes) (comment : Option String)
    (out_exists force : Bool) (file approved : Bytes)
    → ((message : Bytes)
        → Decodes s.backend (with_approval e (approval_of s key comment (s.sign key message))))
    → decode_capsule_parts s.backend file ≡ ok (e, ciphertext)
    → add_approval_seal s out_exists force key comment file ≡ ok approved
    → Approved s e ciphertext key comment file approved
unfolding add_approval_seal
sealed_lem s e ciphertext key comment out_exists force file approved codec decoded done =
    let (_, c1, h1) =
      >>=-eq-ok (require (not (out_exists && not force)) output_exists) _ (rw decoded at done) in
    let (message, c2, h2) =
      >>=-eq-ok (approval_signature_message s e ciphertext (approval_of s key comment [])) _ h1 in
    record {
      message = message;
      states = c2;
      replaced =
          replace_lem s file approved e
            (with_approval e (approval_of s key comment (s.sign key message))) ciphertext decoded
            refl (codec message) h2;
    }

round_valid :
    (s : SigningBackend) (e : Envelope) (ciphertext verify_key : Bytes) (a : ApprovalSignature)
    (message : Bytes)
    → length a.signature ≡ 64
    → approval_signature_message s e ciphertext a ≡ ok message
    → s.verify verify_key message a.signature ≡ true
    → a.signer_fingerprint ≡ key_fingerprint s verify_key
    → approval_is_valid s e ciphertext verify_key a ≡ ok true
unfolding approval_is_valid
round_valid s e ciphertext verify_key a message sized built verified from_key =
    rw
      (
        built,
        (bytes_eq_iff a.signer_fingerprint (key_fingerprint s verify_key)).1 from_key,
        (==_iff (length a.signature) 64).1 sized,
        verified,
      )
      refl

-- After `add_approval_seal`, `verify_approvals` under the approver's public key answers true, whatever approvals
-- the file had before, and the file decrypts like the one before for every password and every private key. The
-- signature crate has to follow its laws, the serialiser of comments never to fail, and the codec of envelopes to
-- read back this envelope with the approval.
pub verify_approvals-add_approval_seal :
    (s : SigningBackend) (e : Envelope) (ciphertext key : Bytes) (comment : Option String)
    (out_exists force : Bool) (file approved : Bytes)
    → SigningLaws s
    → EncodesComments s
    → ((message : Bytes)
        → Decodes s.backend (with_approval e (approval_of s key comment (s.sign key message))))
    → decode_capsule_parts s.backend file ≡ ok (e, ciphertext)
    → add_approval_seal s out_exists force key comment file ≡ ok approved
    → (verify_approvals s approved (s.verifying_key key) ≡ ok true)
      × OpensAlike s.backend file approved
unfolding verify_approvals
verify_approvals-add_approval_seal s e ciphertext key comment out_exists force file approved laws
      comments codec decoded done =
    let d =
      sealed_lem s e ciphertext key comment out_exists force file approved codec decoded done in
    let sig = s.sign key d.message in
    let approval = approval_of s key comment sig in
    let e' = with_approval e approval in
    let built : (a : ApprovalSignature)
        → (m : Bytes) × (approval_signature_message s e' ciphertext a ≡ ok m) =
      λ a.
        let (m, h) =
          messages_lem s e ciphertext (approval_of s key comment []) a d.message comments
            d.states in
        (m, same_message s e ciphertext approval a ∙ h) in
    let valid : approval_is_valid s e' ciphertext (s.verifying_key key) approval ≡ ok true =
      round_valid s e' ciphertext (s.verifying_key key) approval d.message
        (laws.length-sign key d.message)
        (same_message s e ciphertext approval approval
          ∙ same_bytes s e ciphertext key sig comment
          ∙ d.states)
        (laws.verify-sign key d.message) refl in
    (
      rw (d.replaced.decodes) (
          any_valid_last s e' ciphertext (s.verifying_key key) false e.approvals approval built
            valid),
      d.replaced.opens,
    )

-- Adding an approval to a capsule of the current version changes nothing for the author's signature: verification
-- under any key has the same result or the same error as before. The codec of envelopes has to read back this
-- envelope with the approval.
pub verify_signature-add_approval_seal :
    (s : SigningBackend) (e : Envelope) (ciphertext key author_key : Bytes)
    (comment : Option String) (out_exists force : Bool) (file approved : Bytes)
    → ((message : Bytes)
        → Decodes s.backend (with_approval e (approval_of s key comment (s.sign key message))))
    → decode_capsule_parts s.backend file ≡ ok (e, ciphertext)
    → e.header.version ≡ current_version
    → add_approval_seal s out_exists force key comment file ≡ ok approved
    → verify_signature s approved author_key ≡ verify_signature s file author_key
unfolding verify_signature
verify_signature-add_approval_seal s e ciphertext key author_key comment out_exists force file
      approved codec decoded version done =
    let d =
      sealed_lem s e ciphertext key comment out_exists force file approved codec decoded done in
    let approval = approval_of s key comment (s.sign key d.message) in
    rw (d.replaced.decodes, decoded, same_author s e ciphertext approval version) refl
