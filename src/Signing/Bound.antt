-- ===== src/Signing/Bound.antt =====
-- What an author's message is bound to.
use lvau.Base.{
  ◌≡◌, refl, sym, ap, ◌∙◌, Bool, true, false, some, ◌++◌, append-injective, if◌then◌else◌, leb,
}
use lvau.Base.Bytes.{Bytes}
use lvau.Error.{ok_injective, Result, ok, ok_or, map_err, >>=-eq-ok, map_err-eq-ok, ok_or-eq-ok}
use lvau.Envelope.{Envelope, EnvelopeSignature, current_version}
use lvau.Capsule.{Backend}
use lvau.Signing.{
  serialization, not_signed, author_signature_v2_domain, author_statement, author_signature_message,
}

-- `take_from_bytes` reads an encoding back whatever follows it, and returns what follows.
abbrev pub TakesPrefix : Backend → Envelope → Type 0
TakesPrefix b e =
    (bytes rest : Bytes)
    → b.encode_envelope e ≡ ok bytes
    → b.take_envelope (bytes ++ rest) ≡ ok (e, rest)

when_true : {A : Type 0} (c : Bool) (x y : A) {z : A} → c ≡ true → (if c then x else y) ≡ z → x ≡ z
when_true true x y c h = h
when_true false x y c h = absurd (cc)

some_injective : {A : Type 0} {x y : A} → some x ≡ some y → x ≡ y
some_injective h = cc

message-eq-ok :
    (b : Backend) (e : Envelope) (signature : EnvelopeSignature) (ciphertext message : Bytes)
    → e.header.version ≡ current_version
    → e.signature ≡ some signature
    → author_signature_message b e ciphertext ≡ ok message
    → (bytes : Bytes) × (b.encode_envelope (author_statement e signature) ≡ ok bytes)
      × (message ≡ author_signature_v2_domain ++ (bytes ++ ciphertext))
unfolding author_signature_message
message-eq-ok b e signature ciphertext message version signed built =
    let current : leb current_version e.header.version ≡ true = ap (leb current_version) version in
    let (found, c0, h0) =
      >>=-eq-ok (ok_or e.signature not_signed) _ (when_true _ _ _ current built) in
    let same : found ≡ signature = some_injective (sym (ok_or-eq-ok _ not_signed c0) ∙ signed) in
    let (bytes, c, h) =
      >>=-eq-ok (map_err serialization (b.encode_envelope (author_statement e signature))) _
        (rw same at h0) in
    (
      bytes,
      map_err-eq-ok serialization _ c,
      sym (ok_injective (ok (author_signature_v2_domain ++ (bytes ++ ciphertext))) refl h),
    )

-- Two capsules of the current version whose authors' messages are the same have the same signed statement, which
-- is the envelope but for the signature's bytes and the approvals, and the same payload. The codec has to read back
-- both statements whatever follows them.
pub author_signature_message_injective :
    (b : Backend) (e e' : Envelope) (signature signature' : EnvelopeSignature)
    (ciphertext ciphertext' message : Bytes)
    → TakesPrefix b (author_statement e signature)
    → TakesPrefix b (author_statement e' signature')
    → e.header.version ≡ current_version
    → e'.header.version ≡ current_version
    → e.signature ≡ some signature
    → e'.signature ≡ some signature'
    → author_signature_message b e ciphertext ≡ ok message
    → author_signature_message b e' ciphertext' ≡ ok message
    → (author_statement e signature ≡ author_statement e' signature') × (ciphertext ≡ ciphertext')
author_signature_message_injective b e e' signature signature' ciphertext ciphertext' message takes
      takes' version version' signed signed' built built' =
    let (bytes, encodes, whole) =
      message-eq-ok b e signature ciphertext message version signed built in
    let (bytes', encodes', whole') =
      message-eq-ok b e' signature' ciphertext' message version' signed' built' in
    let (_, same) =
      append-injective author_signature_v2_domain author_signature_v2_domain refl
        (sym whole ∙ whole') in
    pair_injective _ (takes bytes ciphertext encodes)
      (ap b.take_envelope same ∙ takes' bytes' ciphertext' encodes')
  where
    pair_injective :
        {A B E : Type 0} {x x' : A} {y y' : B} (r : Result (A × B) E)
        → r ≡ ok (x, y)
        → r ≡ ok (x', y')
        → (x ≡ x') × (y ≡ y')
    pair_injective r h k = (cc, cc)
