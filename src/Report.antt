-- ===== src/Report.antt =====
-- crates/lvau-core/src/report.rs: the report on a capsule that may be opened too, and the listing of a bundle of
-- crates/lvau-core/src/bundle_stream.rs. The file's path and the time are given.
pub mod Opened
use lvau.Base.{ℕ, Bool, true, false, ◌&&◌, Option, none, some, String, List, []}
use lvau.Base.Bytes.{Bytes, codes, bytes_eq}
use lvau.Base.{length, if◌then◌else◌}
use lvau.Error.{Result, ok, err, stuck, ◌>>=◌, map_err, CryptoError}
use lvau.Envelope.{BundleManifest}
use lvau.Policy.{CapsulePolicy}
use lvau.Capsule.{Backend}
use lvau.Capsule.Decrypt.{
  cursor, HybridPrivateKey, decrypt_file_password, verify_file_password, verify_file_keypair,
}
use lvau.Signing.{SigningBackend}
use lvau.Bundle.{BundleError, crypto}
use lvau.Bundle.Manifest.{BundleBackend, list_plaintext}
use lvau.Preflight.{PreflightResult, run_preflight}

pub record FullReport : Type 0 where
  pub file_path : String
  pub preflight : PreflightResult
  pub decryption_successful : Option Bool
  pub file_count : Option ℕ
  pub timestamp : String

pub data DecryptCredential : Type 0 where
  password : Bytes → Option Bytes → DecryptCredential
  keypair : HybridPrivateKey → DecryptCredential

-- `list_bundle`: the password is used without a seed.
unfoldable pub list_bundle :
    Backend → BundleBackend → Bytes → Bytes → Result BundleManifest BundleError
list_bundle b bundles file pass = do
  plaintext ← map_err crypto (decrypt_file_password b (cursor file) pass none)
  list_plaintext bundles plaintext

abbrev pub succeeded : {A E : Type 0} → Result A E → Bool
succeeded (ok a) = true
succeeded _ = false

unfoldable pub try_decryption : Backend → Bytes → Option DecryptCredential → Option Bool
try_decryption b file none = none
try_decryption b file (some (password pass seed)) =
    some (succeeded (verify_file_password b (cursor file) pass seed))
try_decryption b file (some (keypair key)) =
    some (succeeded (verify_file_keypair b (cursor file) key))

abbrev count_entries : Result BundleManifest BundleError → Option ℕ
count_entries (ok manifest) = some (length manifest.entries)
count_entries _ = none

abbrev is_true : Option Bool → Bool
is_true (some true) = true
is_true _ = false

-- The listing, where decryption succeeded, the content is a bundle and the credential a password.
unfoldable pub try_listing :
    Backend → BundleBackend → Bytes → String → Option Bool → Option DecryptCredential → Option ℕ
try_listing b bundles file content_type decrypted (some (password pass seed)) =
    if is_true decrypted && bytes_eq (codes content_type) (codes "Bundle")
    then count_entries (list_bundle b bundles file pass)
    else none
try_listing b bundles file content_type decrypted _ = none

unfoldable pub generate_report :
    SigningBackend
    → BundleBackend
    → (CryptoError → String)
    → String
    → String
    → Bytes
    → Option Bytes
    → Option CapsulePolicy
    → Option DecryptCredential
    → Result FullReport CryptoError
generate_report s bundles error_text path timestamp file verify_key policy credential = do
  preflight ← run_preflight s error_text file verify_key policy
  let decrypted = try_decryption s.backend file credential
  ok (record {
    file_path = path;
    preflight = preflight;
    decryption_successful = decrypted;
    file_count = try_listing s.backend bundles file preflight.content_type decrypted credential;
    timestamp = timestamp;
  })
