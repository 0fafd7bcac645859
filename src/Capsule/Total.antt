-- ===== src/Capsule/Total.antt =====
-- Encryption succeeds where nothing that it calls fails.
use lvau.Base.{
  ℕ, suc, replicate, ◌^◌, ◌≤◌, ◌<◌, ◌≡◌, ◌≢◌, refl, ap, Bool, true, false, not, ◌&&◌, ◌||◌, Option,
  none, some, List, [], ◌∷◌, ◌++◌, length, is_empty, leb, ltb, arith, All, inl, inr, ◌⊎◌,
}
use lvau.Base.Bytes.{Bytes, IsByte, to_le_bytes}
use lvau.Error.{ok}
use lvau.Envelope.{
  Envelope, Recipient, hybrid, ContentType, SecurityProfile, fast, balanced, archive, paranoid,
  extreme,
}
use lvau.Primitives.{Laws, Hkdf}
use lvau.KeySchedule.{derive_subkey, label, key_wrap}
use lvau.Reader.{Reader, content, IsSteady}
use lvau.Payload.Chunk.{IsReady}
use lvau.Payload.Stream.{stream_encrypt_payload}
use lvau.Payload.Stream.RoundTrip.{stream_encrypt_total}
use lvau.Policy.{CapsulePolicy, is_valid}
use lvau.Policy.Rules.{lint_envelope}
use lvau.Policy.Rules.Spec.{Complies}
use lvau.Policy.Rules.Sound.{lint_envelope-Complies}
use lvau.Capsule.{
  Backend, payload_aad_v2_domain, aad_of, max_envelope_size, compute_aad_hash,
  expected_argon2_costs, needs_secondary_nonce, is_password, wrapped_key,
}
use lvau.Capsule.Encrypt.{
  Draws, hkdf, derive_master_key, wrap_key_xchacha, algorithm_for, secondary_for, profile_costs,
  kdf_for, with_hash, check_policy, write_envelope_and_payload, seal, encrypt_file_password,
  HybridPublicKey, RecipientDraws, derive_contributory_x25519, hybrid_wrap_label, wrap_for,
  wrap_all, encrypt_file_keypairs,
}
use lvau.Capsule.Checked.{Acceptable, HasCosts, IsFitting, validate_envelope_resources_iff}
use lvau.Capsule.RoundTrip.{ready_lem}
use lvau.Capsule.Password.{password_draft}
use lvau.Capsule.Keypair.{keypair_draft}

-- The encoders of a commitment's fields and of the envelope with it succeed, and the envelope fits its limit.
pub record Encodes (b : Backend) (e : Envelope) : Type 0 where
  pub aad : Bytes
  pub encodes_aad : b.encode_aad (aad_of e) ≡ ok aad
  pub encoded : Bytes
  pub encodes :
      b.encode_envelope (with_hash e (b.prims.sha256 (payload_aad_v2_domain ++ aad))) ≡ ok encoded
  pub nonempty : 0 < length encoded
  pub fits : length encoded ≤ max_envelope_size

not_empty : (pass : Bytes) → pass ≢ [] → is_empty pass ≡ false
not_empty [] h = absurd (h refl)
not_empty (x ∷ xs) h = refl

seed_given :
    (seed : Option Bytes)
    → seed ≢ some []
    → elim seed [ none ↦ true | some s ↦ not (is_empty s) ] ≡ true
seed_given none h = refl
seed_given (some []) h = absurd (h refl)
seed_given (some (x ∷ xs)) h = refl

-- A policy that was asked for is complied with, or overridden.
abbrev pub Permits : Option CapsulePolicy → Bool → Envelope → Type 0
Permits none overridden e = Unit
Permits (some p) overridden e = Complies e p ⊎ (overridden ≡ true)

either_true : (a b : Bool) → (a ≡ true) ⊎ (b ≡ true) → (a || b) ≡ true
either_true true b h = refl
either_true false b h = elim h [ inl n ↦ absurd (cc) | inr t ↦ t ]

check_policy-Permits :
    (policy : Option CapsulePolicy) (overridden : Bool) (e : Envelope)
    → Permits policy overridden e
    → check_policy policy overridden e ≡ ok tt
unfolding check_policy
check_policy-Permits none overridden e h = refl
check_policy-Permits (some p) overridden e (inl c) =
    rw
      (either_true (is_valid (lint_envelope e p)) overridden
        (inl ((lint_envelope-Complies e p).1 c)))
      refl
check_policy-Permits (some p) overridden e (inr o) =
    rw (either_true (is_valid (lint_envelope e p)) overridden (inr o)) refl

size_checks :
    (xs : Bytes)
    → 0 < length xs
    → length xs ≤ 1048576
    → ((not (is_empty xs) && leb (length xs) 1048576) ≡ true) × (ltb (length xs) (2 ^ 32) ≡ true)
size_checks [] pos le = absurd (omega arith)
size_checks (x ∷ xs) pos le = ground arith

costs_lem :
    (profile : SecurityProfile) (salt : Bytes) → HasCosts profile (some (kdf_for profile salt))
unfolding kdf_for profile_costs expected_argon2_costs
costs_lem fast salt = (refl, refl, refl)
costs_lem balanced salt = (refl, refl, refl)
costs_lem archive salt = (refl, refl, refl)
costs_lem paranoid salt = (refl, refl, refl)
costs_lem extreme salt = (refl, refl, refl)

pub fitting_lem :
    (profile : SecurityProfile) (sn : Bytes)
    → IsFitting (algorithm_for profile) (secondary_for (algorithm_for profile) sn)
unfolding algorithm_for needs_secondary_nonce
fitting_lem fast sn = refl
fitting_lem balanced sn = refl
fitting_lem archive sn = refl
fitting_lem paranoid sn = refl
fitting_lem extreme sn = refl

Acceptable-draft :
    (d : Draws) (len : ℕ) (profile : SecurityProfile) (overridden : Bool) (ct : Option ContentType)
    (wrapped hash : Bytes)
    → length wrapped ≡ 48
    → Acceptable (with_hash (password_draft d len profile overridden ct wrapped) hash)
unfolding is_password wrapped_key
Acceptable-draft d len profile overridden ct wrapped hash size = record {
  inhabited = omega arith;
  bounded = omega arith;
  wrapped = (size, tt);
  uniform = inl ((refl, tt), costs_lem profile d.salt);
  fitting = fitting_lem profile d.secondary;
}

commits :
    (b : Backend) (e : Envelope) (aad : Bytes)
    → e.header.version ≡ 2
    → b.encode_aad (aad_of e) ≡ ok aad
    → compute_aad_hash b e ≡ ok (b.prims.sha256 (payload_aad_v2_domain ++ aad))
unfolding compute_aad_hash
commits b e aad v h = rw (h, v) refl

writes :
    (b : Backend) (e : Envelope) (hk : Hkdf) (r : Reader) (encoded payload : Bytes) (n : ℕ)
    → b.encode_envelope e ≡ ok encoded
    → 0 < length encoded
    → length encoded ≤ max_envelope_size
    → stream_encrypt_payload b.prims e.header.algorithm e.header.version hk e.nonce
        e.secondary_nonce e.aad_hash r
      ≡ ok (payload, n)
    → write_envelope_and_payload b e hk r
      ≡ ok (to_le_bytes 4 (length encoded) ++ (encoded ++ payload))
unfolding write_envelope_and_payload
writes b e hk r encoded payload n enc pos fits streams =
    let (sized, narrow) = size_checks encoded pos fits in rw (enc, sized, narrow, streams) refl

pub seal_total :
    (b : Backend) (e : Envelope) (fek : Bytes) (policy : Option CapsulePolicy) (overridden : Bool)
    (xs : Bytes) (r : Reader)
    → Laws b.prims
    → Encodes b e
    → e.header.version ≡ 2
    → IsReady e.header.algorithm e.secondary_nonce
    → ((hash : Bytes) → Acceptable (with_hash e hash))
    → ((hash : Bytes) → Permits policy overridden (with_hash e hash))
    → All IsByte xs
    → length xs < 2 ^ 64
    → IsSteady r
    → content r ≡ xs
    → (file : Bytes) × (seal b e fek policy overridden r ≡ ok file)
unfolding seal
seal_total b e fek policy overridden xs r laws enc version ready acceptable permits bytes bound st
      same =
    let hash = b.prims.sha256 (payload_aad_v2_domain ++ enc.aad) in
    let (payload, streams) =
      stream_encrypt_total b.prims e.header.algorithm e.header.version (hkdf fek) e.nonce
        e.secondary_nonce hash xs r laws ready bytes bound st same in
    (
      to_le_bytes 4 (length enc.encoded) ++ (enc.encoded ++ payload),
      rw
          (
            commits b e enc.aad version enc.encodes_aad,
            (validate_envelope_resources_iff _).1 (acceptable hash),
            check_policy-Permits policy overridden (with_hash e hash) (permits hash),
          )
          (writes b (with_hash e hash) (hkdf fek) r enc.encoded payload (length xs) enc.encodes
            enc.nonempty enc.fits streams),
    )

-- Encryption with a password succeeds: for every profile and every plaintext of
-- fewer than 2^64 bytes, if the password and the seed are not empty, the file key has 32 bytes, Argon2id derives a
-- key from the profile's costs, the encoders succeed within the limit of an envelope, and the envelope complies
-- with the policy, if one is given, or that is overridden. No read fails, and the primitives keep their laws.
pub encrypt_file_password_total :
    (b : Backend) (d : Draws) (r : Reader) (pass : Bytes) (seed : Option Bytes)
    (profile : SecurityProfile) (policy : Option CapsulePolicy) (overridden : Bool)
    (ct : Option ContentType) (master xs : Bytes)
    → Laws b.prims
    → ((wrapped : Bytes)
        → length wrapped ≡ 48
        → Encodes b (password_draft d (length xs) profile overridden ct wrapped))
    → ((wrapped hash : Bytes)
        → Permits policy overridden
            (with_hash (password_draft d (length xs) profile overridden ct wrapped) hash))
    → pass ≢ []
    → seed ≢ some []
    → derive_master_key b pass seed (kdf_for profile d.salt) ≡ ok master
    → All IsByte d.fek
    → length d.fek ≡ 32
    → All IsByte xs
    → length xs < 2 ^ 64
    → IsSteady r
    → content r ≡ xs
    → (file : Bytes) × (encrypt_file_password b d
          (length xs)
          r
          pass
          seed
          profile
          policy
          overridden
          ct
        ≡ ok file)
unfolding encrypt_file_password derive_subkey wrap_key_xchacha
encrypt_file_password_total b d r pass seed profile policy overridden ct master xs laws enc permits
      full seeded derives key_bytes key_size bytes bound st same =
    let (kwk, subkey, _) = laws.expand_law (hkdf master) (label key_wrap) 32 (omega arith) in
    let s = laws.xchacha_laws kwk d.wrap_nonce [] d.fek key_bytes (omega arith) in
    let size : length s.sealed ≡ 48 = omega (arith, s.tagged) in
    let (file, sealed) =
      seal_total b (password_draft d (length xs) profile overridden ct s.sealed) d.fek policy
        overridden xs r laws (enc s.sealed size) refl (ready_lem profile d.secondary)
        (λ hash. Acceptable-draft d (length xs) profile overridden ct s.sealed hash size)
        (permits s.sealed) bytes bound st same in
    (file, rw (not_empty pass full, seed_given seed seeded, derives, subkey, s.encrypted) sealed)

-- What the loop over public keys makes of them.
record Recipients (b : Backend) (fek : Bytes) (keys : List (HybridPublicKey × RecipientDraws))
    : Type 0 where
  pub recipients : List Recipient
  pub made : wrap_all b fek keys ≡ ok recipients
  pub count : length recipients ≡ length keys
  pub sizes : All (λ r. length (wrapped_key r) ≡ 48) recipients
  pub pairs : All (λ r. is_password r ≡ false) recipients

-- The exchange with a public key is accepted.
abbrev pub Accepts : Backend → HybridPublicKey × RecipientDraws → Type 0
Accepts b k = (shared : Bytes) × (derive_contributory_x25519 b k.1.ephemeral k.0.x25519 ≡ ok shared)

wrap-All-Recipients :
    (b : Backend) (fek : Bytes) (keys : List (HybridPublicKey × RecipientDraws))
    → Laws b.prims
    → All IsByte fek
    → length fek ≡ 32
    → All (Accepts b) keys
    → Recipients b fek keys
unfolding wrap_all wrap_for wrap_key_xchacha is_password wrapped_key
wrap-All-Recipients b fek [] laws bytes size accepted = record {
  recipients = [];
  made = refl;
  count = refl;
  sizes = tt;
  pairs = tt;
}
wrap-All-Recipients b fek ((key, d) ∷ keys) laws bytes size ((ss, shared), accepted) =
    let (kwk, expands, _) =
      laws.expand_law (hkdf (ss ++ (b.encapsulate key.mlkem d.encapsulation).1)) hybrid_wrap_label
        32 (omega arith) in
    let s = laws.xchacha_laws kwk (replicate 24 0) [] fek bytes (omega arith) in
    let rest = wrap-All-Recipients b fek keys laws bytes size accepted in
    record {
      recipients =
          hybrid (b.x25519_public d.ephemeral) (b.encapsulate key.mlkem d.encapsulation).0 s.sealed
          ∷ rest.recipients;
      made = rw (shared, expands, s.encrypted, rest.made) refl;
      count = ap suc rest.count;
      sizes = (omega (arith, s.tagged), rest.sizes);
      pairs = (refl, rest.pairs);
    }

-- Encryption for key pairs succeeds: for every profile, 1 to 64 public keys whose
-- exchanges are accepted and every plaintext of fewer than 2^64 bytes, if the file key has 32 bytes, the encoders
-- succeed within the limit of an envelope, and the envelope complies with the policy, if one is given, or that is
-- overridden. No read fails, and the primitives keep their laws.
pub encrypt_file_keypairs_total :
    (b : Backend) (d : Draws) (r : Reader) (keys : List (HybridPublicKey × RecipientDraws))
    (profile : SecurityProfile) (policy : Option CapsulePolicy) (overridden : Bool)
    (ct : Option ContentType) (xs : Bytes)
    → Laws b.prims
    → ((rs : List Recipient)
        → wrap_all b d.fek keys ≡ ok rs
        → Encodes b (keypair_draft d (length xs) profile overridden ct rs))
    → ((rs : List Recipient) (hash : Bytes)
        → Permits policy overridden
            (with_hash (keypair_draft d (length xs) profile overridden ct rs) hash))
    → 0 < length keys
    → length keys ≤ 64
    → All (Accepts b) keys
    → All IsByte d.fek
    → length d.fek ≡ 32
    → All IsByte xs
    → length xs < 2 ^ 64
    → IsSteady r
    → content r ≡ xs
    → (file : Bytes) × (encrypt_file_keypairs b d (length xs) r keys profile policy overridden ct
        ≡ ok file)
unfolding encrypt_file_keypairs
encrypt_file_keypairs_total b d r keys profile policy overridden ct xs laws enc permits some_ few
      accepted key_bytes key_size bytes bound st same =
    let w = wrap-All-Recipients b d.fek keys laws key_bytes key_size accepted in
    let (file, sealed) =
      seal_total b (keypair_draft d (length xs) profile overridden ct w.recipients) d.fek policy
        overridden xs r laws (enc w.recipients w.made) refl (ready_lem profile d.secondary)
        (λ hash. record {
          inhabited = omega (arith, w.count);
          bounded = omega (arith, w.count);
          wrapped = w.sizes;
          uniform = inr (w.pairs, refl);
          fitting = fitting_lem profile d.secondary;
        })
        (permits w.recipients) bytes bound st same in
    (file, rw w.made sealed)
