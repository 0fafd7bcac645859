-- ===== src/Suite.antt =====
-- crates/lvau-core/src/crypto/suite.rs: the registry of payload suites, format v2 and the experimental v3.
pub mod Agree
pub mod V3
use lvau.Base.{ℕ, Bool, true, false, Option, none, some}
use lvau.Envelope.{
  AlgorithmId, xchacha20_poly1305, cascade_aes_gcm_xchacha, triple_cascade_aes_xchacha_lco,
}

pub data SuiteId : Type 0 where
  v2_xchacha20_poly1305 v2_aes_gcm_xchacha20_poly1305 v2_aes_gcm_xchacha20_poly1305_lco : SuiteId

pub record CryptoSuite : Type 0 where
  pub id : SuiteId
  pub format_version : ℕ
  pub layer_count : ℕ
  pub xchacha_nonce_len : ℕ
  pub aes_nonce_len : Option ℕ
  pub tag_overhead_per_chunk : ℕ
  pub experimental : Bool
  pub includes_legacy_obfuscation : Bool

-- `CryptoSuite::for_v2_algorithm`
unfoldable pub for_v2_algorithm : AlgorithmId → Option CryptoSuite
for_v2_algorithm xchacha20_poly1305 = some (record {
  id = v2_xchacha20_poly1305;
  format_version = 2;
  layer_count = 1;
  xchacha_nonce_len = 24;
  aes_nonce_len = none;
  tag_overhead_per_chunk = 16;
  experimental = false;
  includes_legacy_obfuscation = false;
})
for_v2_algorithm cascade_aes_gcm_xchacha = some (record {
  id = v2_aes_gcm_xchacha20_poly1305;
  format_version = 2;
  layer_count = 2;
  xchacha_nonce_len = 24;
  aes_nonce_len = some 12;
  tag_overhead_per_chunk = 32;
  experimental = true;
  includes_legacy_obfuscation = false;
})
for_v2_algorithm triple_cascade_aes_xchacha_lco = some (record {
  id = v2_aes_gcm_xchacha20_poly1305_lco;
  format_version = 2;
  layer_count = 2;
  xchacha_nonce_len = 24;
  aes_nonce_len = some 12;
  tag_overhead_per_chunk = 32;
  experimental = true;
  includes_legacy_obfuscation = true;
})
for_v2_algorithm _ = none

pub data V3SuiteId : Type 0 where
  v3_xchacha20_poly1305 v3_aes256_gcm_siv_xchacha20_poly1305 : V3SuiteId

pub record V3CryptoSuite : Type 0 where
  pub id : V3SuiteId
  pub format_version : ℕ
  pub layer_count : ℕ
  pub xchacha_nonce_len : ℕ
  pub aes_nonce_len : Option ℕ
  pub tag_overhead_per_chunk : ℕ
  pub experimental : Bool

-- `V3CryptoSuite::for_suite`
unfoldable pub for_suite : V3SuiteId → V3CryptoSuite
for_suite v3_xchacha20_poly1305 = record {
  id = v3_xchacha20_poly1305;
  format_version = 3;
  layer_count = 1;
  xchacha_nonce_len = 24;
  aes_nonce_len = none;
  tag_overhead_per_chunk = 16;
  experimental = true;
}
for_suite v3_aes256_gcm_siv_xchacha20_poly1305 = record {
  id = v3_aes256_gcm_siv_xchacha20_poly1305;
  format_version = 3;
  layer_count = 2;
  xchacha_nonce_len = 24;
  aes_nonce_len = some 12;
  tag_overhead_per_chunk = 32;
  experimental = true;
}
