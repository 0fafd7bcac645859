-- ===== src/Signing/Author.antt =====
-- What an author signs is what verification accepts.
use lvau.Base.{◌≡◌, refl, ◌∙◌, Bool, not, ◌&&◌, Option, some, [], String}
use lvau.Base.Bytes.{Bytes}
use lvau.Error.{ok, require, >>=-eq-ok}
use lvau.Envelope.{Envelope}
use lvau.Capsule.RoundTrip.{Decodes}
use lvau.Artifact.Repack.{OpensAlike}
use lvau.Signing.{
  SigningBackend, SigningLaws, output_exists, decode_capsule_parts, key_fingerprint, author_of,
  with_author, author_signature_message, sign_file, verify_signature, has_signature,
}
use lvau.Signing.Accepts.{Passed, verify_signature-Passed, replace_lem}

-- The signature's bytes are not part of what is signed.
cleared_lem :
    (s : SigningBackend) (e : Envelope) (ciphertext key sig : Bytes)
    (created_at comment : Option String)
    → author_signature_message s.backend
        (with_author e (author_of s key created_at comment sig))
        ciphertext
      ≡ author_signature_message s.backend
          (with_author e (author_of s key created_at comment []))
          ciphertext
unfolding author_signature_message
cleared_lem s e ciphertext key sig created_at comment = refl

-- A file that `sign_file` made is accepted by `verify_signature` under the signer's public key, which returns the
-- key's fingerprint; `has_signature` reports that fingerprint; and the signed file decrypts like the unsigned one
-- for every password and every private key. The signature crate has to follow its laws, and the codec of envelopes
-- to read back this envelope with a signature.
pub verify_signature-sign_file :
    (s : SigningBackend) (e : Envelope) (ciphertext key : Bytes)
    (created_at comment : Option String) (out_exists force : Bool) (file signed : Bytes)
    → SigningLaws s
    → ((message : Bytes)
        → Decodes s.backend
            (with_author e (author_of s key created_at comment (s.sign key message))))
    → decode_capsule_parts s.backend file ≡ ok (e, ciphertext)
    → sign_file s out_exists force key created_at comment file ≡ ok signed
    → (verify_signature s signed (s.verifying_key key)
        ≡ ok (key_fingerprint s (s.verifying_key key)))
      × (has_signature s signed ≡ ok (some (key_fingerprint s (s.verifying_key key))))
      × OpensAlike s.backend file signed
unfolding sign_file has_signature
verify_signature-sign_file s e ciphertext key created_at comment out_exists force file signed laws
      codec decoded done =
    let (_, c1, h1) =
      >>=-eq-ok (require (not (out_exists && not force)) output_exists) _ (rw decoded at done) in
    let (message, c2, h2) =
      >>=-eq-ok
        (author_signature_message s.backend (with_author e (author_of s key created_at comment []))
          ciphertext)
        _ h1 in
    let sig = s.sign key message in
    let e' = with_author e (author_of s key created_at comment sig) in
    let r = replace_lem s file signed e e' ciphertext decoded refl (codec message) h2 in
    let passed : Passed s signed (s.verifying_key key) (key_fingerprint s (s.verifying_key key)) =
      record {
        envelope = e';
        ciphertext = ciphertext;
        signature = author_of s key created_at comment sig;
        message = message;
        decodes = r.decodes;
        signed = refl;
        sized = laws.length-sign key message;
        from_key = refl;
        states = cleared_lem s e ciphertext key sig created_at comment ∙ c2;
        verifies = laws.verify-sign key message;
        returned = refl;
      } in
    ((verify_signature-Passed s signed _ _).1 passed, rw (r.decodes) refl, r.opens)
