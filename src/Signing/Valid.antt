-- ===== src/Signing/Valid.antt =====
-- Which files `verify_signature` accepts, in terms of their bytes.
use lvau.Base.{
  ℕ, ◌+◌, ◌≡◌, ◌↔◌, ◌≤◌, ◌<◌, inl, inr, refl, sym, ap, ◌∙◌, Bool-cases, true, false, Option, none,
  some, [], ◌∷◌, ◌++◌, length, take, drop, leb, ◌==◌, arith, if◌then◌else◌, String,
}
use lvau.Base.Bytes.{Bytes, codes, from_le_bytes}
use lvau.Error.{Result, ok, ◌>>=◌, ok_or, map_err, >>=-eq-ok, map_err-eq-ok, ok_injective}
use lvau.Envelope.{Envelope, EnvelopeSignature}
use lvau.Capsule.{Backend, max_envelope_size, decode_envelope_bytes}
use lvau.Artifact.{decode_capsule_envelope}
use lvau.Artifact.Cursor.{decode_capsule_envelope-Parts, Parts-decode}
use lvau.Signing.{
  SigningError, SigningBackend, serialization, invalid_envelope, not_signed, author_statement,
  decode_capsule_parts, key_fingerprint, author_signature_message, verify_signature,
}
use lvau.Signing.Accepts.{Passed, verify_signature-Passed, parts_eq}

-- A file is the length of an envelope in four bytes, from 1 to 2^20, then that many bytes, which the decoder
-- accepts, and then the payload.
pub record IsCapsule (b : Backend) (file : Bytes) (e : Envelope) (payload : Bytes) : Type 0 where
  pub envelope_len : ℕ
  pub field : from_le_bytes (take 4 file) ≡ envelope_len
  pub positive : 0 < envelope_len
  pub bounded : envelope_len ≤ 1048576
  pub inside : 4 + envelope_len ≤ length file
  pub decodes : decode_envelope_bytes b (take envelope_len (drop 4 file)) ≡ ok e
  pub rest : drop (4 + envelope_len) file ≡ payload

decode_capsule_parts-IsCapsule :
    (b : Backend) (file : Bytes) (e : Envelope) (payload : Bytes)
    → (decode_capsule_parts b file ≡ ok (e, payload)) ↔ IsCapsule b file e payload
unfolding decode_capsule_parts
decode_capsule_parts-IsCapsule b file e payload = (there, back)
  where
    there : decode_capsule_parts b file ≡ ok (e, payload) → IsCapsule b file e payload
    there h =
        let (end_, decoded, rest) = parts_eq b file e payload h in
        let p = decode_capsule_envelope-Parts b invalid_envelope file e end_ decoded in
        record {
          envelope_len = p.envelope_len;
          field = p.len_eq;
          positive = not_zero p.envelope_len p.positive;
          bounded = at_most p.envelope_len p.fits;
          inside = p.inside;
          decodes = p.decoded;
          rest = ap (λ n. drop n file) (sym p.end_eq) ∙ rest;
        }
      where
        not_zero : (n : ℕ) → (n == 0) ≡ false → 0 < n
        not_zero n k = ground arith

        at_most : (n : ℕ) → leb n max_envelope_size ≡ true → n ≤ 1048576
        at_most n k = ground arith

    back : IsCapsule b file e payload → decode_capsule_parts b file ≡ ok (e, payload)
    back c =
        let decoded : decode_capsule_envelope b invalid_envelope file ≡ ok (e, 4 + c.envelope_len) =
          Parts-decode b invalid_envelope file e (4 + c.envelope_len) (record {
            envelope_len = c.envelope_len;
            len_eq = c.field;
            end_eq = refl;
            inside = c.inside;
            positive = above c.envelope_len c.positive;
            fits = below c.envelope_len c.bounded;
            decoded = c.decodes;
          }) in
        rw (decoded, c.rest) refl
      where
        above : (n : ℕ) → 0 < n → (n == 0) ≡ false
        above n k = ground arith

        below : (n : ℕ) → n ≤ 1048576 → leb n max_envelope_size ≡ true
        below n k = ground arith

-- What an author's signature is made over. From version 2 on, the domain, the envelope without the signature's own
-- bytes and without the approvals, and the payload; before, the envelope without a signature, and the payload.
pub record IsMessage (b : Backend) (e : Envelope) (signature : EnvelopeSignature)
    (payload message : Bytes) : Type 0 where
  pub current :
      2 ≤ e.header.version
      → (bytes : Bytes) × (b.encode_envelope
            (record e { signature = some (record signature { signature = [] }); approvals = [] })
          ≡ ok bytes)
        × (message ≡ codes "Lvau author signature v2" ++ (0 ∷ (bytes ++ payload)))
  pub legacy :
      e.header.version < 2
      → (bytes : Bytes) × (b.encode_envelope (record e { signature = none }) ≡ ok bytes)
        × (message ≡ bytes ++ payload)

encoded_iff :
    (r : Result Bytes String) (f : Bytes → Bytes) (message : Bytes)
    → ((map_err serialization r >>= λ bytes. ok (f bytes)) ≡ ok message)
      ↔ ((bytes : Bytes) × (r ≡ ok bytes) × (message ≡ f bytes))
encoded_iff r f message = (
  λ h.
      let (bytes, encoded, h1) = >>=-eq-ok (map_err serialization r) _ h in
      (bytes, map_err-eq-ok serialization r encoded, ok_injective (ok message) refl (sym h1)),
  λ (bytes, encoded, same). rw (encoded, same) refl,
)

by_version_iff :
    (n : ℕ) (x y : Result Bytes SigningError) (message : Bytes)
    → ((if leb 2 n then x else y) ≡ ok message)
      ↔ ((2 ≤ n → x ≡ ok message) × (n < 2 → y ≡ ok message))
by_version_iff n x y message = elim (Bool-cases (leb 2 n)) [
  | inl new ↦
      let le : 2 ≤ n = ground arith in
      rw new (λ h. (λ v. h, λ v. absurd (omega arith)), λ (now, before). now le)
  | inr old ↦
      let lt : n < 2 = ground arith in
      rw old (λ h. (λ v. absurd (omega arith), λ v. h), λ (now, before). before lt)
]

with_signature :
    (o : Option EnvelopeSignature) (signature : EnvelopeSignature)
    (f : EnvelopeSignature → Result Bytes SigningError)
    → o ≡ some signature
    → (ok_or o not_signed >>= f) ≡ f signature
with_signature o signature f h = rw h refl

IsMessage-iff :
    (b : Backend) (e : Envelope) (signature : EnvelopeSignature) (payload message : Bytes)
    → e.signature ≡ some signature
    → (author_signature_message b e payload ≡ ok message) ↔ IsMessage b e signature payload message
unfolding author_signature_message
IsMessage-iff b e signature payload message signed =
    let versions = by_version_iff e.header.version _ _ message in
    let present =
      with_signature e.signature signature
        (λ sig. map_err serialization (b.encode_envelope (author_statement e sig)) >>= λ bytes.
          ok (codes "Lvau author signature v2" ++ (0 ∷ (bytes ++ payload))))
        signed in
    let now =
      encoded_iff (b.encode_envelope (author_statement e signature))
        (λ bytes. codes "Lvau author signature v2" ++ (0 ∷ (bytes ++ payload))) message in
    let before =
      encoded_iff (b.encode_envelope (record e { signature = none })) (λ bytes. bytes ++ payload)
        message in
    (
      λ h.
          let (x, y) = versions.0 h in
          record { current = λ v. now.0 (sym present ∙ x v); legacy = λ v. before.0 (y v) },
      λ m. versions.1 (λ v. present ∙ now.1 (m.current v), λ v. before.1 (m.legacy v)),
    )

fingerprint_lem :
    (s : SigningBackend) (verify_key : Bytes)
    → key_fingerprint s verify_key ≡ s.backend.prims.sha256 verify_key
unfolding key_fingerprint
fingerprint_lem s verify_key = refl

-- A file that carries an author's signature which fits a key.
pub record Accepted (s : SigningBackend) (file verify_key fingerprint : Bytes) : Type 0 where
  pub envelope : Envelope
  pub payload : Bytes
  pub signature : EnvelopeSignature
  pub message : Bytes
  pub capsule : IsCapsule s.backend file envelope payload
  pub signed : envelope.signature ≡ some signature
  pub sized : length signature.signature ≡ 64
  pub from_key : signature.signer_fingerprint ≡ s.backend.prims.sha256 verify_key
  pub states : IsMessage s.backend envelope signature payload message
  pub verifies : s.verify verify_key message signature.signature ≡ true
  pub returned : fingerprint ≡ s.backend.prims.sha256 verify_key

-- `verify_signature` accepts a file exactly where it is a capsule of an envelope with a signature of 64 bytes, under
-- the SHA-256 of the key, which verifies under the key for the message that the envelope's version asks for, with the
-- payload in it. It returns that fingerprint.
pub verify_signature_iff :
    (s : SigningBackend) (file verify_key fingerprint : Bytes)
    → (verify_signature s file verify_key ≡ ok fingerprint) ↔ Accepted s file verify_key fingerprint
verify_signature_iff s file verify_key fingerprint = (there, back)
  where
    steps :
        (verify_signature s file verify_key ≡ ok fingerprint) ↔ Passed s file verify_key fingerprint
    steps = verify_signature-Passed s file verify_key fingerprint

    there :
        verify_signature s file verify_key ≡ ok fingerprint → Accepted s file verify_key fingerprint
    there h =
        let p = steps.0 h in
        record {
          envelope = p.envelope;
          payload = p.ciphertext;
          signature = p.signature;
          message = p.message;
          capsule =
              (decode_capsule_parts-IsCapsule s.backend file p.envelope p.ciphertext).0 p.decodes;
          signed = p.signed;
          sized = p.sized;
          from_key = p.from_key ∙ fingerprint_lem s verify_key;
          states =
              (IsMessage-iff s.backend p.envelope p.signature p.ciphertext p.message p.signed).0
                p.states;
          verifies = p.verifies;
          returned = p.returned ∙ fingerprint_lem s verify_key;
        }

    back :
        Accepted s file verify_key fingerprint → verify_signature s file verify_key ≡ ok fingerprint
    back a = steps.1 (record {
      envelope = a.envelope;
      ciphertext = a.payload;
      signature = a.signature;
      message = a.message;
      decodes = (decode_capsule_parts-IsCapsule s.backend file a.envelope a.payload).1 a.capsule;
      signed = a.signed;
      sized = a.sized;
      from_key = a.from_key ∙ sym (fingerprint_lem s verify_key);
      states =
          (IsMessage-iff s.backend a.envelope a.signature a.payload a.message a.signed).1 a.states;
      verifies = a.verifies;
      returned = a.returned ∙ sym (fingerprint_lem s verify_key);
    })
