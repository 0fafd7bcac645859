-- ===== src/Policy.antt =====
-- crates/lvau-core/src/policy.rs: the capsule policy and its lint. Reading and writing policy files is
-- not modelled.
pub mod Rules
use Prim.Native.String
use lvau.Base.{
  ℕ, zero, suc, ◌+◌, ◌*◌, ◌/◌, ◌%◌, ◌^◌, Bool, true, false, not, ◌&&◌, ◌||◌, Option, none, some,
  List, [], ◌∷◌, ◌++◌, map, String, length, any, is_empty, is_some, is_none, leb, ltb, ◌==◌,
  if◌then◌else◌,
}
use lvau.Base.Bytes.{Bytes, codes, bytes_eq}
use lvau.Envelope.{
  Envelope, KdfParams, AlgorithmId, xchacha20_poly1305, cascade_aes_gcm_xchacha,
  triple_cascade_aes_xchacha_lco, x25519, ed25519, x25519_mlkem_hybrid, ed25519_mldsa_hybrid,
  SecurityProfile, paranoid, extreme, Recipient, password, hybrid, ReleaseMetadata,
  ApprovalSignature,
}

pub data MinKdfProfile : Type 0 where
  interactive moderate strong : MinKdfProfile

pub data MetadataProfilePolicy : Type 0 where
  minimal balanced verbose : MetadataProfilePolicy

pub data PaddingPolicy : Type 0 where
  no_padding bucket fixed : PaddingPolicy

pub record CapsulePolicy : Type 0 where
  pub require_signature : Bool
  pub require_recovery : Bool
  pub min_kdf_profile : Option MinKdfProfile
  pub allowed_ciphers : Option (List String)
  pub allowed_kdfs : Option (List String)
  pub allow_lco : Bool
  pub allow_experimental : Bool
  pub require_metadata_profile : Option MetadataProfilePolicy
  pub require_padding : Option PaddingPolicy
  pub require_recipient_count_min : ℕ
  pub require_approval_signatures_min : ℕ
  pub public_label_allowed : Bool
  pub created_by_required : Bool

-- `CapsulePolicy::default`
abbrev pub default_policy : CapsulePolicy
default_policy = record {
  require_signature = false;
  require_recovery = false;
  min_kdf_profile = none;
  allowed_ciphers = none;
  allowed_kdfs = none;
  allow_lco = true;
  allow_experimental = true;
  require_metadata_profile = none;
  require_padding = none;
  require_recipient_count_min = 0;
  require_approval_signatures_min = 0;
  public_label_allowed = true;
  created_by_required = false;
}

-- `PolicyViolation` and `PolicyWarning` have the same two fields.
pub record Finding : Type 0 where
  pub rule : String
  pub message : String

pub record PolicyResult : Type 0 where
  pub violations : List Finding
  pub warnings : List Finding

abbrev pub new_result : PolicyResult
new_result = record { violations = []; warnings = [] }

-- `PolicyResult::is_valid`
abbrev pub is_valid : PolicyResult → Bool
is_valid r = is_empty r.violations

pub violate : String → String → PolicyResult → PolicyResult
violate name text r = record r {
  violations = r.violations ++ (record { rule = name; message = text } ∷ []);
}

pub warn : String → String → PolicyResult → PolicyResult
warn name text r = record r {
  warnings = r.warnings ++ (record { rule = name; message = text } ∷ []);
}

-- `format!` of an unsigned number, and the concatenation of texts.
digit : ℕ → String
digit d =
    if d == 0
    then "0"
    else if d == 1
    then "1"
    else if d == 2
    then "2"
    else if d == 3
    then "3"
    else if d == 4
    then "4"
    else if d == 5
    then "5"
    else if d == 6
    then "6"
    else if d == 7
    then "7"
    else if d == 8
    then "8"
    else "9"

decimal_loop : ℕ → ℕ → String → String
decimal_loop zero n acc = acc
decimal_loop (suc fuel) n acc =
    let acc' = String.◌++◌ (digit (n % 10)) acc in
    let more = decimal_loop fuel (n / 10) acc' in if n / 10 == 0 then acc' else more

-- A `u32` has ten digits at most.
decimal : ℕ → String
decimal n = decimal_loop 10 n ""

join : List String → String
join [] = ""
join (s ∷ ss) = String.◌++◌ s (join ss)

-- `{:?}` of the two enums
min_kdf_name : MinKdfProfile → String
min_kdf_name interactive = "Interactive"
min_kdf_name moderate = "Moderate"
min_kdf_name strong = "Strong"

pub algorithm_name : AlgorithmId → String
algorithm_name xchacha20_poly1305 = "XChaCha20Poly1305"
algorithm_name cascade_aes_gcm_xchacha = "CascadeAesGcmXChaCha"
algorithm_name triple_cascade_aes_xchacha_lco = "TripleCascadeAesXChaChaLco"
algorithm_name x25519 = "X25519"
algorithm_name ed25519 = "Ed25519"
algorithm_name x25519_mlkem_hybrid = "X25519MlkemHybrid"
algorithm_name ed25519_mldsa_hybrid = "Ed25519MldsaHybrid"

-- `str::eq_ignore_ascii_case`
pub to_lower : ℕ → ℕ
to_lower c = if leb b'A' c && leb c b'Z' then c + 32 else c

pub eq_ignore_ascii_case : String → String → Bool
eq_ignore_ascii_case s t = bytes_eq (map to_lower (codes s)) (map to_lower (codes t))

-- The number of elements of a `HashSet` of the fingerprints.
pub contains : Bytes → List Bytes → Bool
contains x [] = false
contains x (y ∷ ys) = bytes_eq x y || contains x ys

pub distinct : List Bytes → List Bytes
distinct [] = []
distinct (x ∷ xs) = if contains x (distinct xs) then distinct xs else x ∷ distinct xs
