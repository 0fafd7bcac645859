-- ===== src/Capsule/Policed.antt =====
-- What a capsule that was written, or one that was read, is known to satisfy.
use lvau.Base.{
  ℕ, ◌≡◌, ◌⊎◌, inl, inr, refl, sym, ap, subst, ◌∙◌, Bool, true, false, ◌||◌, ◌&&◌, some, [], ◌∷◌,
  ◌++◌, ◌==◌, leb, arith, String, if◌then◌else◌,
}
use lvau.Base.Bytes.{Bytes, codes, bytes_eq, bytes_eq_iff}
use lvau.Error.{
  Result, CryptoError, ok, err, stuck, ok_injective, serialization, map_err, >>=-eq-ok,
  map_err-eq-ok, require-eq-ok, validation,
}
use lvau.Envelope.{Envelope, magic_real, validate}
use lvau.Reader.{Reader}
use lvau.Policy.{CapsulePolicy, is_valid}
use lvau.Policy.Rules.{lint_envelope}
use lvau.Policy.Rules.Spec.{Complies}
use lvau.Policy.Rules.Sound.{lint_envelope-Complies}
use lvau.Capsule.{
  Backend, LegacyEnvelopeV1, from_legacy, aad_of, exact, or_legacy, compute_aad_hash,
  validate_envelope_resources, verify_aad_hash, decode_any, decode_envelope_bytes,
}
use lvau.Capsule.Encrypt.{with_hash, check_policy, write_envelope_and_payload, hkdf, seal}
use lvau.Capsule.Checked.{Acceptable, validate_envelope_resources_iff}

orb_false : (b : Bool) → (b || false) ≡ true → b ≡ true
orb_false true h = refl
orb_false false h = h

-- A capsule that was sealed under a policy, by a password or for key pairs, without an override carries an
-- envelope that complies with the policy and passes the resource check, under the commitment to its own fields.
pub seal-Complies :
    (b : Backend) (d : Envelope) (fek : Bytes) (p : CapsulePolicy) (r : Reader) (file : Bytes)
    → seal b d fek (some p) false r ≡ ok file
    → (hash : Bytes) × (compute_aad_hash b d ≡ ok hash)
      × Complies (with_hash d hash) p
      × Acceptable (with_hash d hash)
      × (write_envelope_and_payload b (with_hash d hash) (hkdf fek) r ≡ ok file)
unfolding seal check_policy
seal-Complies b d fek p r file h =
    let (hash, computed, h1) = >>=-eq-ok (compute_aad_hash b d) _ h in
    let (_, resources, h2) = >>=-eq-ok (validate_envelope_resources (with_hash d hash)) _ h1 in
    let (_, allowed, h3) = >>=-eq-ok (check_policy (some p) false (with_hash d hash)) _ h2 in
    let clean =
      orb_false (is_valid (lint_envelope (with_hash d hash) p)) (require-eq-ok _ _ allowed) in
    (
      hash,
      computed,
      (lint_envelope-Complies (with_hash d hash) p).0 clean,
      (validate_envelope_resources_iff (with_hash d hash)).0 resources,
      h3,
    )

-- The steps of the decoder, for an envelope that it returns.
pub decode_envelope_bytes-eq-ok :
    (b : Backend) (bytes : Bytes) (e : Envelope)
    → decode_envelope_bytes b bytes ≡ ok e
    → (decode_any b bytes ≡ ok e)
      × (validate e ≡ ok tt)
      × Acceptable e
      × (compute_aad_hash b e ≡ ok e.aad_hash)
unfolding decode_envelope_bytes verify_aad_hash
decode_envelope_bytes-eq-ok b bytes e h =
    let (e', read, h1) = >>=-eq-ok (decode_any b bytes) _ h in
    let (_, valid, h2) = >>=-eq-ok (map_err validation (validate e')) _ h1 in
    let (_, resources, h3) = >>=-eq-ok (validate_envelope_resources e') _ h2 in
    let (_, verified, h4) = >>=-eq-ok (verify_aad_hash b e') _ h3 in
    let (hash, computed, h5) = >>=-eq-ok (compute_aad_hash b e') _ verified in
    let matches =
      (bytes_eq_iff hash e'.aad_hash).0 (require-eq-ok (bytes_eq hash e'.aad_hash) _ h5) in
    let same : e' ≡ e = cc in
    subst
      (λ x.
        (decode_any b bytes ≡ ok x)
        × (validate x ≡ ok tt)
        × Acceptable x
        × (compute_aad_hash b x ≡ ok x.aad_hash))
      same
      (
        read,
        map_err-eq-ok validation (validate e') valid,
        (validate_envelope_resources_iff e').0 resources,
        computed ∙ ap ok matches,
      )

exact-eq-ok :
    {A : Type 0} (b : Backend) (r : Result (A × Bytes) String) (x : A)
    → exact b r ≡ ok x
    → r ≡ ok (x, [])
exact-eq-ok b (ok (value, [])) x h = cc
exact-eq-ok b (ok (value, c ∷ cs)) x h = absurd (cc)
exact-eq-ok b (err e) x h = absurd (cc)
exact-eq-ok b stuck x h = absurd (cc)

or_legacy-eq-ok :
    (current : Result Envelope String) (old : Result LegacyEnvelopeV1 String) (e : Envelope)
    → or_legacy current old ≡ ok e
    → (current ≡ ok e)
      ⊎ ((legacy : LegacyEnvelopeV1) × (old ≡ ok legacy) × (e ≡ from_legacy legacy))
or_legacy-eq-ok (ok e') old e h = inl (cc)
or_legacy-eq-ok (err m) (ok legacy) e h = inr (legacy, refl, ok_injective (ok e) refl (sym h))
or_legacy-eq-ok (err m) (err n) e h = absurd (cc)
or_legacy-eq-ok (err m) stuck e h = absurd (cc)
or_legacy-eq-ok stuck old e h = absurd (cc)

-- The bytes are one envelope to their end, in the current format or in the legacy one.
abbrev pub IsReadFrom : Backend → Bytes → Envelope → Type 0
IsReadFrom b bytes e =
    (b.take_envelope bytes ≡ ok (e, []))
    ⊎ ((legacy : LegacyEnvelopeV1) × (b.take_legacy bytes ≡ ok (legacy, []))
        × (e ≡ from_legacy legacy))

decode_any-IsReadFrom :
    (b : Backend) (bytes : Bytes) (e : Envelope) → decode_any b bytes ≡ ok e → IsReadFrom b bytes e
unfolding decode_any
decode_any-IsReadFrom b bytes e h =
    elim (or_legacy-eq-ok (exact b (b.take_envelope bytes)) (exact b (b.take_legacy bytes)) e h) [
      | inl current ↦ inl (exact-eq-ok b (b.take_envelope bytes) e current)
      | inr (legacy, old, same) ↦ inr (legacy, exact-eq-ok b (b.take_legacy bytes) legacy old, same)
    ]

-- The hash is that of the header's bytes for version 1, and for version 2 that of the domain and the bytes of the
-- public fields, those that signatures and metadata fill left out.
pub record Committed (b : Backend) (e : Envelope) : Type 0 where
  pub first :
      e.header.version ≡ 1
      → (bytes : Bytes) × (b.encode_header e.header ≡ ok bytes)
        × (e.aad_hash ≡ b.prims.sha256 bytes)
  pub second :
      e.header.version ≡ 2
      → (bytes : Bytes) × (b.encode_aad (record {
        header = e.header;
        plaintext_len = e.plaintext_len;
        nonce = e.nonce;
        secondary_nonce = e.secondary_nonce;
        metadata = e.metadata;
        content_type = e.content_type;
        public_label = e.public_label;
        policy_overridden = e.policy_overridden;
      })
          ≡ ok bytes)
        × (e.aad_hash ≡ b.prims.sha256 (codes "Lvau payload AAD v2" ++ (0 ∷ bytes)))

-- The branch that a version takes.
by_version :
    (n : ℕ) (x y z : Result Bytes CryptoError) (hash : Bytes)
    → (if n == 1 then x else if n == 2 then y else z) ≡ ok hash
    → (n ≡ 1 → x ≡ ok hash) × (n ≡ 2 → y ≡ ok hash)
by_version n x y z hash h = (λ v. rw v at h, λ v. rw v at h)

compute_aad_hash-Committed :
    (b : Backend) (e : Envelope) → compute_aad_hash b e ≡ ok e.aad_hash → Committed b e
unfolding compute_aad_hash
compute_aad_hash-Committed b e h =
    let (one, two) = by_version e.header.version _ _ _ e.aad_hash h in
    record {
      first = λ v.
          let (bytes, encoded, h1) =
            >>=-eq-ok (map_err serialization (b.encode_header e.header)) _ (one v) in
          (
            bytes,
            map_err-eq-ok serialization (b.encode_header e.header) encoded,
            ok_injective (ok e.aad_hash) refl (sym h1),
          );
      second = λ v.
          let (bytes, encoded, h1) =
            >>=-eq-ok (map_err serialization (b.encode_aad (aad_of e))) _ (two v) in
          (
            bytes,
            map_err-eq-ok serialization (b.encode_aad (aad_of e)) encoded,
            ok_injective (ok e.aad_hash) refl (sym h1),
          );
    }

-- The bytes `LVAU` and one of the two known versions.
pub record HasFormat (e : Envelope) : Type 0 where
  pub magic : e.header.magic ≡ codes "LVAU"
  pub version : (e.header.version ≡ 1) ⊎ (e.header.version ≡ 2)

if_else-eq-ok :
    (c : Bool) (r : Result (Unit {0}) String) (message : String)
    → (if c then r else err message) ≡ ok tt
    → (c ≡ true) × (r ≡ ok tt)
if_else-eq-ok true r message h = (refl, h)
if_else-eq-ok false r message h = absurd (cc)

one_or_two : (n : ℕ) → (leb 1 n && leb n 2) ≡ true → (n ≡ 1) ⊎ (n ≡ 2)
one_or_two n h = ground arith

validate-HasFormat : (e : Envelope) → validate e ≡ ok tt → HasFormat e
unfolding validate
validate-HasFormat e h =
    let (magic, h1) = if_else-eq-ok (bytes_eq e.header.magic magic_real) _ _ h in
    let (version, _) = if_else-eq-ok (leb 1 e.header.version && leb e.header.version 2) _ _ h1 in
    record {
      magic = (bytes_eq_iff e.header.magic magic_real).0 magic;
      version = one_or_two e.header.version version;
    }

-- An envelope that the decoder returns is what the current or the legacy codec read from all of the bytes. It has
-- the magic bytes and version 1 or 2, passes the resource check, and its commitment is the hash of its header for
-- version 1, and of its public fields behind the domain for version 2.
pub decode_envelope_bytes-Acceptable :
    (b : Backend) (bytes : Bytes) (e : Envelope)
    → decode_envelope_bytes b bytes ≡ ok e
    → IsReadFrom b bytes e × HasFormat e × Acceptable e × Committed b e
decode_envelope_bytes-Acceptable b bytes e h =
    let (read, valid, acceptable, hash) = decode_envelope_bytes-eq-ok b bytes e h in
    (
      decode_any-IsReadFrom b bytes e read,
      validate-HasFormat e valid,
      acceptable,
      compute_aad_hash-Committed b e hash,
    )
