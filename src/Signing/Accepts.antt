-- ===== src/Signing/Accepts.antt =====
-- What a verification that succeeds has checked, and the ends of `sign_file` and `add_approval_seal`.
use lvau.Base.{ℕ, ◌≡◌, ◌↔◌, refl, sym, ap, ◌∙◌, true, some, length, take, drop, ◌==◌, ==_iff}
use lvau.Base.Bytes.{Bytes, bytes_eq, bytes_eq_iff}
use lvau.Error.{Result, ok, require, ok_or, >>=-eq-ok, require-eq-ok, ok_or-eq-ok}
use lvau.Envelope.{Envelope, EnvelopeSignature}
use lvau.Capsule.{Backend}
use lvau.Artifact.{decode_capsule_envelope, encode_capsule}
use lvau.Artifact.Cursor.{decode_capsule_envelope-Parts}
use lvau.Artifact.Repack.{Keeps, decode-Keeps, decode-encode_capsule, OpensAlike, Keeps-OpensAlike}
use lvau.Capsule.RoundTrip.{Decodes}
use lvau.Signing.{
  SigningError, SigningBackend, serialization, invalid_envelope, not_signed, verification_failed,
  decode_capsule_parts, key_fingerprint, author_signature_message, verify_signature,
}

-- The steps of a verification of an author's signature that succeeds.
pub record Passed (s : SigningBackend) (file verify_key fingerprint : Bytes) : Type 0 where
  pub envelope : Envelope
  pub ciphertext : Bytes
  pub signature : EnvelopeSignature
  pub message : Bytes
  pub decodes : decode_capsule_parts s.backend file ≡ ok (envelope, ciphertext)
  pub signed : envelope.signature ≡ some signature
  pub sized : length signature.signature ≡ 64
  pub from_key : signature.signer_fingerprint ≡ key_fingerprint s verify_key
  pub states : author_signature_message s.backend envelope ciphertext ≡ ok message
  pub verifies : s.verify verify_key message signature.signature ≡ true
  pub returned : fingerprint ≡ key_fingerprint s verify_key

-- The steps of `verify_signature`, and what they return.
pub verify_signature-Passed :
    (s : SigningBackend) (file verify_key fingerprint : Bytes)
    → (verify_signature s file verify_key ≡ ok fingerprint) ↔ Passed s file verify_key fingerprint
unfolding verify_signature
verify_signature-Passed s file verify_key fingerprint = (there, back)
  where
    there :
        verify_signature s file verify_key ≡ ok fingerprint → Passed s file verify_key fingerprint
    there h =
        let ((e, ciphertext), c1, h1) = >>=-eq-ok (decode_capsule_parts s.backend file) _ h in
        let (sig, c2, h2) = >>=-eq-ok (ok_or e.signature not_signed) _ h1 in
        let (_, c3, h3) =
          >>=-eq-ok (require (length sig.signature == 64) verification_failed) _ h2 in
        let (_, c4, h4) =
          >>=-eq-ok
            (require (bytes_eq sig.signer_fingerprint (key_fingerprint s verify_key))
              verification_failed)
            _ h3 in
        let (message, c5, h5) = >>=-eq-ok (author_signature_message s.backend e ciphertext) _ h4 in
        let (_, c6, h6) =
          >>=-eq-ok (require (s.verify verify_key message sig.signature) verification_failed) _
            h5 in
        record {
          envelope = e;
          ciphertext = ciphertext;
          signature = sig;
          message = message;
          decodes = c1;
          signed = ok_or-eq-ok e.signature not_signed c2;
          sized = (==_iff (length sig.signature) 64).0 (require-eq-ok _ _ c3);
          from_key = (bytes_eq_iff sig.signer_fingerprint _).0 (require-eq-ok _ _ c4);
          states = c5;
          verifies = require-eq-ok _ _ c6;
          returned = cc;
        }

    back :
        Passed s file verify_key fingerprint → verify_signature s file verify_key ≡ ok fingerprint
    back a =
        rw
          (
            a.decodes,
            a.states,
            a.signed,
            (==_iff (length a.signature.signature) 64).1 a.sized,
            (bytes_eq_iff a.signature.signer_fingerprint (key_fingerprint s verify_key)).1
                a.from_key,
            a.verifies,
          )
          (ap ok (sym a.returned))

-- A file whose envelope was replaced by one that keeps the committed fields.
pub record Replaced (s : SigningBackend) (file file' : Bytes) (e' : Envelope) (ciphertext : Bytes)
    : Type 0 where
  pub decodes : decode_capsule_parts s.backend file' ≡ ok (e', ciphertext)
  pub opens : OpensAlike s.backend file file'

pub parts_eq :
    (b : Backend) (file : Bytes) (e : Envelope) (ciphertext : Bytes)
    → decode_capsule_parts b file ≡ ok (e, ciphertext)
    → (end_ : ℕ) × (decode_capsule_envelope b invalid_envelope file ≡ ok (e, end_))
      × (drop end_ file ≡ ciphertext)
unfolding decode_capsule_parts
parts_eq b file e ciphertext decoded =
    let ((e0, end_), c1, h1) =
      >>=-eq-ok (decode_capsule_envelope b invalid_envelope file) _ decoded in
    from_parts (decode_capsule_envelope b invalid_envelope file) e0 end_ (ok (e0, drop end_ file))
      c1 refl h1
  where
    from_parts :
        (r : Result (Envelope × ℕ) SigningError) (e0 : Envelope) (end_ : ℕ)
        (last : Result (Envelope × Bytes) SigningError)
        → r ≡ ok (e0, end_)
        → last ≡ ok (e0, drop end_ file)
        → last ≡ ok (e, ciphertext)
        → (end_ : ℕ) × (r ≡ ok (e, end_)) × (drop end_ file ≡ ciphertext)
    from_parts r e0 end_ last h start k = (end_, cc, cc)

pub replace_lem :
    (s : SigningBackend) (file file' : Bytes) (e e' : Envelope) (ciphertext : Bytes)
    → decode_capsule_parts s.backend file ≡ ok (e, ciphertext)
    → Keeps e e'
    → Decodes s.backend e'
    → encode_capsule s.backend serialization invalid_envelope e' ciphertext ≡ ok file'
    → Replaced s file file' e' ciphertext
unfolding decode_capsule_parts
replace_lem s file file' e e' ciphertext decoded same codec written =
    let (end_, at, rest) = parts_eq s.backend file e ciphertext decoded in
    let p = decode_capsule_envelope-Parts s.backend invalid_envelope file e end_ at in
    let (end', at', rest') =
      decode-encode_capsule s.backend serialization invalid_envelope invalid_envelope e' ciphertext
        file' written
        (λ bytes encodes.
          decode-Keeps s.backend (take p.envelope_len (drop 4 file)) bytes e e' p.decoded same
            (codec bytes encodes)) in
    record {
      decodes = rw at' (ap (λ z. ok (e', z)) rest');
      opens =
          Keeps-OpensAlike s.backend invalid_envelope file file' e e' end_ end' at at' same
            (rest' ∙ sym rest);
    }
