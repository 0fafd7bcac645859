-- ===== src/Tests/Keypair.antt =====
-- A capsule for two key pairs, and the properties of envelopes, over the toy back end.
use lvau.Base.{
  ℕ, zero, suc, ◌≡◌, ◌↔◌, refl, sym, ap, subst, ◌∙◌, true, false, none, some, List, [], ◌∷◌, ◌++◌,
  replicate, arith, All, inl, inr,
}
use lvau.Base.Bytes.{Bytes, IsByte, bytes_eq}
use lvau.Error.{Result, ok, CryptoError}
use lvau.Envelope.{Envelope, Recipient, hybrid, fast, validate, KdfParams}
use lvau.Reader.{content}
use lvau.Policy.{default_policy, is_valid, interactive}
use lvau.Policy.Rules.{lint_envelope, kdf_is_weaker}
use lvau.Policy.Rules.Spec.{Complies, IsStrongEnough}
use lvau.Policy.Rules.Sound.{lint_envelope-Complies}
use lvau.Policy.Rules.Decide.{kdf_is_weaker_iff}
use lvau.Capsule.{
  Backend, compute_aad_hash, validate_envelope_resources, decode_envelope_bytes, wrapped_key,
  is_password,
}
use lvau.Capsule.Encrypt.{
  Draws, HybridPublicKey, RecipientDraws, derive_contributory_x25519, wrap_all, wrap_for,
  wrap_key_xchacha, encrypt_file_keypairs, seal, with_hash, hkdf, write_envelope_and_payload,
  algorithm_for,
}
use lvau.Capsule.Decrypt.{HybridPrivateKey, cursor, decrypt_file_keypair, try_recipient}
use lvau.Capsule.Written.{decode_from}
use lvau.Capsule.Keys.{Agree}
use lvau.Capsule.RoundTrip.{Decodes}
use lvau.Capsule.Checked.{Acceptable, validate_envelope_resources_iff}
use lvau.Capsule.Keypair.{keypair_draft, decrypt_file-encrypt_file_keypairs}
use lvau.Capsule.Total.{Encodes, fitting_lem, seal_total, encrypt_file_keypairs_total}
use lvau.Capsule.Policed.{
  seal-Complies, IsReadFrom, HasFormat, Committed, decode_envelope_bytes-Acceptable,
}
use lvau.Tests.Toy.{
  toy-Laws, toy_backend, toy_take, toy_encode, toy_take_lem, first_wrapped, cursor-IsSteady,
  content-cursor,
}

abbrev draws : Draws
draws = record {
  salt = replicate 16 1;
  fek = replicate 32 2;
  wrap_nonce = replicate 24 3;
  nonce = replicate 24 4;
  secondary = replicate 12 5;
}

abbrev public_key : HybridPublicKey
public_key = record { x25519 = 9 ∷ []; mlkem = 8 ∷ [] }

abbrev private_key : HybridPrivateKey
private_key = record { x25519 = 7 ∷ []; mlkem = 6 ∷ [] }

abbrev recipient_draws : RecipientDraws
recipient_draws = record { ephemeral = 5 ∷ []; encapsulation = 4 ∷ [] }

abbrev keys : List (HybridPublicKey × RecipientDraws)
keys = (public_key, recipient_draws) ∷ (public_key, recipient_draws) ∷ []

abbrev sealed_key : Bytes
sealed_key = replicate 32 2 ++ replicate 16 0

abbrev two : Bytes → List Recipient
two wrapped = hybrid (1 ∷ 5 ∷ []) (4 ∷ []) wrapped ∷ hybrid (1 ∷ 5 ∷ []) (4 ∷ []) wrapped ∷ []

abbrev pair_draft : Bytes → Envelope
pair_draft wrapped = keypair_draft draws 2 fast false none (two wrapped)

abbrev toy_pairs : Backend
toy_pairs = toy_backend pair_draft

wraps_two : wrap_all toy_pairs draws.fek keys ≡ ok (two sealed_key)
unfolding wrap_all wrap_for wrap_key_xchacha derive_contributory_x25519
wraps_two = refl

made_two : (rs : List Recipient) → wrap_all toy_pairs draws.fek keys ≡ ok rs → two sealed_key ≡ rs
made_two rs h = same_ok (sym wraps_two ∙ h)
  where
    same_ok :
        {a b : List Recipient} → ◌≡◌ {A = Result (List Recipient) CryptoError} (ok a) (ok b) → a ≡ b
    same_ok h = cc

pair-Encodes : Encodes toy_pairs (pair_draft sealed_key)
unfolding toy_encode first_wrapped wrapped_key
pair-Encodes = record {
  aad = 2 ∷ [];
  encodes_aad = refl;
  encoded = 48 ∷ sealed_key ++ replicate 32 9;
  encodes = refl;
  nonempty = omega arith;
  fits = omega arith;
}

pair-Decodes : (hash : Bytes) → Decodes toy_pairs (with_hash (pair_draft sealed_key) hash)
unfolding first_wrapped wrapped_key
pair-Decodes hash bytes h =
    let same : toy_encode (with_hash (pair_draft sealed_key) hash) ≡ bytes = cc in
    ap (toy_take pair_draft) (sym same) ∙ toy_take_lem pair_draft sealed_key hash refl

nothing_before :
    (before : List Recipient) → wrap_all toy_pairs draws.fek [] ≡ ok before → [] ≡ before
unfolding wrap_all
nothing_before before h = cc

pairs-Agree : Agree toy_pairs public_key private_key recipient_draws
pairs-Agree = record {
  exchange = refl;
  ephemeral_nonzero = refl;
  accepted = refl;
  same_secret = refl;
}

fek_bytes : (n : ℕ) → All IsByte (replicate n 2)
fek_bytes zero = tt
fek_bytes (suc n) = (omega arith, fek_bytes n)

encrypt_file_keypairs_total_example :
    (file : Bytes) × (encrypt_file_keypairs toy_pairs draws 2
        (cursor (10 ∷ 20 ∷ []))
        keys
        fast
        none
        false
        none
      ≡ ok file)
unfolding content derive_contributory_x25519
encrypt_file_keypairs_total_example =
    encrypt_file_keypairs_total toy_pairs draws (cursor (10 ∷ 20 ∷ [])) keys fast none false none
      (10 ∷ 20 ∷ []) toy-Laws
      (λ rs h.
        subst (λ x. Encodes toy_pairs (keypair_draft draws 2 fast false none x)) (made_two rs h)
          pair-Encodes)
      (λ rs hash. tt) (omega arith) (omega arith)
      ((replicate 32 5, refl), ((replicate 32 5, refl), tt)) (fek_bytes 32) refl
      (omega arith, (omega arith, tt)) (omega arith) (omega arith, tt) refl

encrypt_file_keypairs_total_run :
    (file : Bytes) × (encrypt_file_keypairs toy_pairs draws 2
        (cursor (10 ∷ 20 ∷ []))
        keys
        fast
        none
        false
        none
      ≡ ok file)
unfolding content derive_contributory_x25519
encrypt_file_keypairs_total_run =
    encrypt_file_keypairs_total toy_pairs draws (cursor (10 ∷ 20 ∷ [])) keys fast none false none
      (10 ∷ 20 ∷ []) toy-Laws
      (λ rs h.
        subst (λ x. Encodes toy_pairs (keypair_draft draws 2 fast false none x)) (made_two rs h)
          pair-Encodes)
      (λ rs hash. tt) (omega arith) (omega arith)
      ((replicate 32 5, refl), ((replicate 32 5, refl), tt)) (fek_bytes 32) refl
      (omega arith, (omega arith, tt)) (omega arith) (omega arith, tt) refl

decrypt_file-encrypt_file_keypairs_example :
    decrypt_file_keypair toy_pairs (cursor encrypt_file_keypairs_total_run.0) private_key
    ≡ ok (10 ∷ 20 ∷ [])
unfolding content
decrypt_file-encrypt_file_keypairs_example =
    decrypt_file-encrypt_file_keypairs toy_pairs draws (cursor (10 ∷ 20 ∷ []))
      (cursor encrypt_file_keypairs_total_run.0) [] ((public_key, recipient_draws) ∷ []) public_key
      recipient_draws private_key fast none false none (10 ∷ 20 ∷ [])
      encrypt_file_keypairs_total_run.0 toy-Laws
      (λ rs hash h.
        subst (λ x. Decodes toy_pairs (with_hash (keypair_draft draws 2 fast false none x) hash))
          (made_two rs h) (pair-Decodes hash))
      pairs-Agree
      (λ before h.
        subst (λ x. All (λ q. try_recipient toy_pairs private_key q ≡ none) x)
          (nothing_before before h) tt)
      (fek_bytes 32) refl (omega arith, (omega arith, tt)) (omega arith) (omega arith, tt) refl
      encrypt_file_keypairs_total_run.1 (cursor-IsSteady encrypt_file_keypairs_total_run.0)
      (content-cursor encrypt_file_keypairs_total_run.0)

pair_Acceptable : (hash : Bytes) → Acceptable (with_hash (pair_draft sealed_key) hash)
unfolding wrapped_key is_password algorithm_for
pair_Acceptable hash = record {
  inhabited = omega arith;
  bounded = omega arith;
  wrapped = (refl, (refl, tt));
  uniform = inr ((refl, (refl, tt)), refl);
  fitting = fitting_lem fast draws.secondary;
}

pair_Complies : (hash : Bytes) → Complies (with_hash (pair_draft sealed_key) hash) default_policy
pair_Complies hash = record {
  signed = inl refl;
  recoverable = inl refl;
  strong_enough = tt;
  cipher_allowed = tt;
  kdf_allowed = tt;
  lco_allowed = inl refl;
  experimental_allowed = inl refl;
  metadata_profile_unset = refl;
  padding_unset = refl;
  label_allowed = inl refl;
  created_by = inl refl;
  enough_recipients = omega arith;
  enough_approvals = (0, refl, omega arith);
}

sealed_run :
    (file : Bytes) × (seal toy_pairs
        (pair_draft sealed_key)
        draws.fek
        (some default_policy)
        false
        (cursor (10 ∷ 20 ∷ []))
      ≡ ok file)
unfolding content algorithm_for
sealed_run =
    seal_total toy_pairs (pair_draft sealed_key) draws.fek (some default_policy) false
      (10 ∷ 20 ∷ []) (cursor (10 ∷ 20 ∷ [])) toy-Laws pair-Encodes refl tt pair_Acceptable
      (λ hash. inl (pair_Complies hash)) (omega arith, (omega arith, tt)) (omega arith)
      (omega arith, tt) refl

seal-Complies_example :
    (hash : Bytes) × (compute_aad_hash toy_pairs (pair_draft sealed_key) ≡ ok hash)
    × Complies (with_hash (pair_draft sealed_key) hash) default_policy
    × Acceptable (with_hash (pair_draft sealed_key) hash)
    × (write_envelope_and_payload toy_pairs
          (with_hash (pair_draft sealed_key) hash)
          (hkdf draws.fek)
          (cursor (10 ∷ 20 ∷ []))
        ≡ ok sealed_run.0)
seal-Complies_example =
    seal-Complies toy_pairs (pair_draft sealed_key) draws.fek default_policy (cursor (10 ∷ 20 ∷ []))
      sealed_run.0 sealed_run.1

abbrev committed : Envelope
committed = with_hash (pair_draft sealed_key) (replicate 32 9)

decoded_run : decode_envelope_bytes toy_pairs (toy_encode committed) ≡ ok committed
unfolding validate bytes_eq compute_aad_hash
decoded_run =
    decode_from toy_pairs (toy_encode committed) committed (replicate 32 9)
      (pair-Decodes (replicate 32 9) (toy_encode committed) refl) refl
      ((validate_envelope_resources_iff committed).1 (pair_Acceptable (replicate 32 9))) refl refl

decode_envelope_bytes-Acceptable_example :
    IsReadFrom toy_pairs (toy_encode committed) committed
    × HasFormat committed
    × Acceptable committed
    × Committed toy_pairs committed
decode_envelope_bytes-Acceptable_example =
    decode_envelope_bytes-Acceptable toy_pairs (toy_encode committed) committed decoded_run

validate_envelope_resources_iff_example :
    (validate_envelope_resources committed ≡ ok tt) ↔ Acceptable committed
validate_envelope_resources_iff_example = validate_envelope_resources_iff committed

lint_envelope-Complies_example :
    (is_valid (lint_envelope committed default_policy) ≡ true) ↔ Complies committed default_policy
lint_envelope-Complies_example = lint_envelope-Complies committed default_policy

abbrev costs : KdfParams
costs = record { m_cost = 65536; t_cost = 2; p_cost = 1; salt = [] }

kdf_is_weaker_iff_example :
    (kdf_is_weaker interactive costs ≡ false) ↔ IsStrongEnough (some interactive) (some costs)
kdf_is_weaker_iff_example = kdf_is_weaker_iff interactive costs
