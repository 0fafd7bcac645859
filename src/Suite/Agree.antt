-- ===== src/Suite/Agree.antt =====
-- The registry of v2 suites against the code that encrypts payloads.
use lvau.Base.{◌-◌, ◌≡◌, refl, sym, ap, Option, some, is_some}
use lvau.Envelope.{
  AlgorithmId, xchacha20_poly1305, cascade_aes_gcm_xchacha, triple_cascade_aes_xchacha_lco, x25519,
  ed25519, x25519_mlkem_hybrid, ed25519_mldsa_hybrid,
}
use lvau.Payload.{chunk_size, get_encrypted_chunk_size}
use lvau.Policy.Rules.{is_lco}
use lvau.Capsule.{is_payload_algorithm, needs_secondary_nonce}
use lvau.Suite.{CryptoSuite, for_v2_algorithm}

-- What a suite says of an algorithm, and what the code does with it.
pub record Describes (a : AlgorithmId) (s : CryptoSuite) : Type 0 where
  pub registered : for_v2_algorithm a ≡ some s
  pub tags : s.tag_overhead_per_chunk ≡ get_encrypted_chunk_size a - chunk_size
  pub second_nonce : is_some s.aes_nonce_len ≡ needs_secondary_nonce a
  pub obfuscated : s.includes_legacy_obfuscation ≡ is_lco a

the_value : {s t : CryptoSuite} → ◌≡◌ {A = Option CryptoSuite} (some s) (some t) → s ≡ t
the_value e = cc

-- An algorithm has a registered suite exactly if the resource check takes it for payloads, and a registered suite
-- gives the tag bytes of a chunk that the streams use, asks for an AES nonce exactly where the envelope must have
-- a second one, and names the obfuscation exactly where the policy's rule finds it.
pub for_v2_algorithm-Describes :
    (a : AlgorithmId)
    → (is_some (for_v2_algorithm a) ≡ is_payload_algorithm a)
      × ((s : CryptoSuite) → for_v2_algorithm a ≡ some s → Describes a s)
unfolding for_v2_algorithm is_payload_algorithm needs_secondary_nonce is_lco
    get_encrypted_chunk_size
for_v2_algorithm-Describes xchacha20_poly1305 = (
  refl,
  λ s e.
      let same = the_value e in
      record {
        registered = e;
        tags = ap (λ t. t.tag_overhead_per_chunk) (sym same);
        second_nonce = ap (λ t. is_some t.aes_nonce_len) (sym same);
        obfuscated = ap (λ t. t.includes_legacy_obfuscation) (sym same);
      },
)
for_v2_algorithm-Describes cascade_aes_gcm_xchacha = (
  refl,
  λ s e.
      let same = the_value e in
      record {
        registered = e;
        tags = ap (λ t. t.tag_overhead_per_chunk) (sym same);
        second_nonce = ap (λ t. is_some t.aes_nonce_len) (sym same);
        obfuscated = ap (λ t. t.includes_legacy_obfuscation) (sym same);
      },
)
for_v2_algorithm-Describes triple_cascade_aes_xchacha_lco = (
  refl,
  λ s e.
      let same = the_value e in
      record {
        registered = e;
        tags = ap (λ t. t.tag_overhead_per_chunk) (sym same);
        second_nonce = ap (λ t. is_some t.aes_nonce_len) (sym same);
        obfuscated = ap (λ t. t.includes_legacy_obfuscation) (sym same);
      },
)
for_v2_algorithm-Describes x25519 = (refl, λ s e. absurd (cc))
for_v2_algorithm-Describes ed25519 = (refl, λ s e. absurd (cc))
for_v2_algorithm-Describes x25519_mlkem_hybrid = (refl, λ s e. absurd (cc))
for_v2_algorithm-Describes ed25519_mldsa_hybrid = (refl, λ s e. absurd (cc))
