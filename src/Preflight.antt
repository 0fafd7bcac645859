-- ===== src/Preflight.antt =====
-- crates/lvau-core/src/preflight.rs: what is reported of a capsule without opening its payload. A file stands for
-- its bytes; the texts that the source prints for errors, and the names that `{:?}` prints, are given.
pub mod Status
use lvau.Base.{
  ℕ, ◌/◌, ◌%◌, Bool, true, false, not, ◌&&◌, ◌||◌, Option, none, some, List, [], ◌∷◌, ◌++◌, String,
  length, get_or, is_empty, is_some, ◌==◌, if◌then◌else◌,
}
use Prim.Native.String
use lvau.Base.Bytes.{Bytes}
use lvau.Error.{Result, ok, err, stuck, CryptoError}
use lvau.Envelope.{
  Envelope, ContentType, single_file, bundle, SecurityProfile, fast, balanced, archive, paranoid,
  extreme, AlgorithmId, xchacha20_poly1305, cascade_aes_gcm_xchacha, triple_cascade_aes_xchacha_lco,
  x25519, ed25519, x25519_mlkem_hybrid, ed25519_mldsa_hybrid, ApprovalSignature, EnvelopeSignature,
  effective_content_type, legacy_version,
}
use lvau.Reader.{Reader}
use lvau.Policy.{CapsulePolicy, Finding, PolicyResult, is_valid}
use lvau.Policy.Rules.{lint_envelope}
use lvau.Capsule.{read_envelope}
use lvau.Capsule.Decrypt.{cursor}
use lvau.Signing.{SigningBackend, SigningError, verify_signature}

pub data PreflightStatus : Type 0 where
  all_ok warned failed : PreflightStatus

pub record PreflightResult : Type 0 where
  pub status : PreflightStatus
  pub parse_ok : Bool
  pub parse_error : Option String
  pub version : ℕ
  pub content_type : String
  pub profile : String
  pub algorithm : String
  pub public_hash_ok : Bool
  pub signature_present : Bool
  pub signature_valid : Option Bool
  pub signer_fingerprint : Option String
  pub policy_ok : Option Bool
  pub policy_violations : List String
  pub policy_warnings : List String
  pub policy_overridden : Bool
  pub approvals : List String
  pub recipient_count : ℕ
  pub has_recovery_metadata : Bool
  pub has_release_metadata : Bool
  pub experimental_flags : List String
  pub file_size_ok : Bool
  pub errors : List String
  pub warnings : List String

abbrev pub initial : PreflightResult
initial = record {
  status = all_ok;
  parse_ok = false;
  parse_error = none;
  version = 0;
  content_type = "Unknown";
  profile = "Unknown";
  algorithm = "Unknown";
  public_hash_ok = false;
  signature_present = false;
  signature_valid = none;
  signer_fingerprint = none;
  policy_ok = none;
  policy_violations = [];
  policy_warnings = [];
  policy_overridden = false;
  approvals = [];
  recipient_count = 0;
  has_recovery_metadata = false;
  has_release_metadata = false;
  experimental_flags = [];
  file_size_ok = false;
  errors = [];
  warnings = [];
}

abbrev content_type_name : ContentType → String
content_type_name single_file = "SingleFile"
content_type_name bundle = "Bundle"

-- `{:?}`
abbrev profile_name : SecurityProfile → String
profile_name fast = "Fast"
profile_name balanced = "Balanced"
profile_name archive = "Archive"
profile_name paranoid = "Paranoid"
profile_name extreme = "Extreme"

abbrev algorithm_debug : AlgorithmId → String
algorithm_debug xchacha20_poly1305 = "XChaCha20Poly1305"
algorithm_debug cascade_aes_gcm_xchacha = "CascadeAesGcmXChaCha"
algorithm_debug triple_cascade_aes_xchacha_lco = "TripleCascadeAesXChaChaLco"
algorithm_debug x25519 = "X25519"
algorithm_debug ed25519 = "Ed25519"
algorithm_debug x25519_mlkem_hybrid = "X25519MlkemHybrid"
algorithm_debug ed25519_mldsa_hybrid = "Ed25519MldsaHybrid"

abbrev hex_digits : List String
hex_digits =
    "0" ∷ "1" ∷ "2" ∷ "3" ∷ "4" ∷ "5" ∷ "6" ∷ "7" ∷ "8" ∷ "9" ∷ "a" ∷ "b" ∷ "c" ∷ "d" ∷ "e" ∷ "f"
    ∷ []

-- `{:02x}` of each byte
unfoldable pub hex : Bytes → String
hex [] = ""
hex (b ∷ bs) =
    String.◌++◌ (get_or hex_digits (b / 16) "")
      (String.◌++◌ (get_or hex_digits (b % 16) "") (hex bs))

unfoldable pub approval_fingerprints : List ApprovalSignature → List String
approval_fingerprints [] = []
approval_fingerprints (a ∷ rest) = hex a.signer_fingerprint ∷ approval_fingerprints rest

abbrev pub with_error : String → PreflightResult → PreflightResult
with_error text res = record res { errors = res.errors ++ (text ∷ []) }

abbrev pub with_warning : String → PreflightResult → PreflightResult
with_warning text res = record res { warnings = res.warnings ++ (text ∷ []) }

abbrev with_flag : String → PreflightResult → PreflightResult
with_flag text res = record res { experimental_flags = res.experimental_flags ++ (text ∷ []) }

-- The fields that are copied from the envelope.
unfoldable pub describe : Envelope → PreflightResult → PreflightResult
describe e res = record res {
  file_size_ok = true;
  parse_ok = true;
  version = e.header.version;
  content_type = content_type_name (effective_content_type e);
  profile = profile_name e.header.profile;
  algorithm = algorithm_debug e.header.algorithm;
  recipient_count = length e.header.recipients;
  has_recovery_metadata = is_some e.recovery_metadata;
  has_release_metadata = is_some e.release_metadata;
  policy_overridden = e.policy_overridden;
  approvals = approval_fingerprints e.approvals;
  public_hash_ok = true;
}

unfoldable pub note_version : Envelope → PreflightResult → PreflightResult
note_version e res =
    if e.header.version == legacy_version
    then with_warning
        "Legacy format v1: plaintext length and public metadata are not payload-authenticated; migrate by decrypting and re-encrypting with Lvau 0.4.0 or later"
        res
    else res

abbrev pub is_cascade : SecurityProfile → Bool
is_cascade extreme = true
is_cascade paranoid = true
is_cascade _ = false

abbrev pub is_triple : AlgorithmId → Bool
is_triple triple_cascade_aes_xchacha_lco = true
is_triple _ = false

unfoldable pub note_experimental : Envelope → PreflightResult → PreflightResult
note_experimental e res =
    let cascaded = if is_cascade e.header.profile then with_flag "Cascade Cipher" res else res in
    if is_triple e.header.algorithm then with_flag "LCO Obfuscation" cascaded else cascaded

-- `match verify_signature(in_file, key)`: what is no success is a failure.
abbrev note_verified : Result Bytes SigningError → PreflightResult → PreflightResult
note_verified (ok fingerprint) res = record res { signature_valid = some true }
note_verified _ res =
    with_error "Signature verification failed" (record res { signature_valid = some false })

unfoldable pub note_signature :
    SigningBackend
    → Bytes
    → Option Bytes
    → Option EnvelopeSignature
    → PreflightResult
    → PreflightResult
note_signature s file verify_key none res = with_warning "No author signature present" res
note_signature s file verify_key (some sig) res =
    let present : PreflightResult = record res {
      signature_present = true;
      signer_fingerprint = some (hex sig.signer_fingerprint);
    } in
    elim verify_key [
      | some key ↦ note_verified (verify_signature s file key) present
      | none ↦
          with_warning
            "Author signature is present but was not cryptographically verified (no verify key supplied)"
            present
    ]

abbrev messages : List Finding → List String
messages [] = []
messages (f ∷ fs) = f.message ∷ messages fs

unfoldable pub note_policy : Option CapsulePolicy → Envelope → PreflightResult → PreflightResult
note_policy none e res = res
note_policy (some p) e res =
    let policy_res = lint_envelope e p in
    let linted : PreflightResult = record res {
      policy_ok = some (is_valid policy_res);
      policy_violations = res.policy_violations ++ messages policy_res.violations;
      policy_warnings = res.policy_warnings ++ messages policy_res.warnings;
    } in
    if is_valid policy_res
    then linted
    else if e.policy_overridden && not (e.header.version == legacy_version)
    then with_warning "Artifact violates policy and carries an authenticated override flag" linted
    else with_error "Artifact violates local policy" linted

unfoldable pub with_status : PreflightResult → PreflightResult
with_status res = record res {
  status =
      if not (is_empty res.errors)
      then failed
      else if not (is_empty res.warnings)
          || (not (is_empty res.policy_warnings) || not (is_empty res.experimental_flags))
      then warned
      else all_ok;
}

-- The end of `run_preflight`, for an envelope that was read.
unfoldable pub examine :
    SigningBackend → Bytes → Option Bytes → Option CapsulePolicy → Envelope → PreflightResult
examine s file verify_key policy e = with_status (
    note_policy policy e (
      note_signature s file verify_key e.signature
        (note_experimental e (note_version e (describe e initial)))))

abbrev pub not_parsed : String → PreflightResult
not_parsed text = record initial {
  status = failed;
  parse_error = some text;
  errors = String.◌++◌ "Failed to parse or validate envelope: " text ∷ [];
}

-- `match read_envelope_from_path(in_file)`; `error_text` is what `{e}` prints.
abbrev pub report_of :
    SigningBackend
    → (CryptoError → String)
    → Bytes
    → Option Bytes
    → Option CapsulePolicy
    → Result (Envelope × Reader) CryptoError
    → Result PreflightResult CryptoError
report_of s error_text file verify_key policy (ok (e, left)) =
    ok (examine s file verify_key policy e)
report_of s error_text file verify_key policy (err error) = ok (not_parsed (error_text error))
report_of s error_text file verify_key policy stuck = stuck

unfoldable pub run_preflight :
    SigningBackend
    → (CryptoError → String)
    → Bytes
    → Option Bytes
    → Option CapsulePolicy
    → Result PreflightResult CryptoError
run_preflight s error_text file verify_key policy =
    report_of s error_text file verify_key policy (read_envelope s.backend (cursor file))
