-- ===== src/Policy/Rules.antt =====
-- The rules of `lint_envelope`, one function each, in the order of the source.
pub mod Spec
pub mod Decide
mod Approvers
mod Each
pub mod Sound
use lvau.Base.{
  ℕ, ◌+◌, ◌*◌, ◌%◌, ◌^◌, Bool, true, false, not, ◌&&◌, ◌||◌, Option, none, some, List, [], ◌∷◌, map,
  String, length, any, is_some, is_none, leb, ltb, ◌==◌, if◌then◌else◌,
}
use lvau.Envelope.{
  Envelope, KdfParams, AlgorithmId, triple_cascade_aes_xchacha_lco, SecurityProfile, paranoid,
  extreme, Recipient, password, hybrid, ReleaseMetadata, ApprovalSignature,
}
use lvau.Policy.{
  MinKdfProfile, interactive, moderate, strong, CapsulePolicy, PolicyResult, new_result, violate,
  warn, decimal, join, min_kdf_name, algorithm_name, eq_ignore_ascii_case, distinct,
}

-- 1.
pub check_signature : Envelope → CapsulePolicy → PolicyResult → PolicyResult
check_signature e p r =
    if p.require_signature && is_none e.signature
    then violate "require_signature" "Policy requires a signature, but none was found." r
    else if p.require_signature
    then warn "require_signature"
        "A signature is present, but envelope linting cannot verify it; run verify-signature with a trusted key."
        r
    else r

-- 2.
pub check_recovery : Envelope → CapsulePolicy → PolicyResult → PolicyResult
check_recovery e p r =
    if p.require_recovery && is_none e.recovery_metadata
    then violate "require_recovery" "Policy requires recovery metadata, but none was found." r
    else if p.require_recovery
    then warn "require_recovery"
        "Recovery metadata is present, but envelope linting cannot verify that its referenced shares are available or trusted."
        r
    else r

-- 3.
pub actual_profile : KdfParams → MinKdfProfile
actual_profile k =
    if leb 1048576 k.m_cost && (leb 4 k.t_cost && leb 4 k.p_cost)
    then strong
    else if leb 262144 k.m_cost && (leb 3 k.t_cost && leb 2 k.p_cost)
    then moderate
    else interactive

-- `fails`, from the required profile, the actual one and `is_interactive`
abbrev kdf_fails : MinKdfProfile → MinKdfProfile → Bool → Bool
kdf_fails strong strong i = false
kdf_fails strong _ i = true
kdf_fails moderate interactive i = true
kdf_fails moderate _ i = false
kdf_fails interactive _ i = not i

pub kdf_is_weaker : MinKdfProfile → KdfParams → Bool
kdf_is_weaker min_kdf k =
    kdf_fails min_kdf (actual_profile k) (leb 65536 k.m_cost && (leb 2 k.t_cost && leb 1 k.p_cost))

pub check_kdf_of : Option MinKdfProfile → Option KdfParams → PolicyResult → PolicyResult
check_kdf_of none kdf r = r
check_kdf_of (some min_kdf) none r = r
check_kdf_of (some min_kdf) (some k) r =
    if kdf_is_weaker min_kdf k
    then violate "min_kdf_profile"
        (join (
          "Policy requires KDF profile "
          ∷ min_kdf_name min_kdf
          ∷ ", but the artifact's KDF is weaker."
          ∷ []))
        r
    else r

-- 4. and 5.
pub check_ciphers_of : Option (List String) → String → PolicyResult → PolicyResult
check_ciphers_of none alg_str r = r
check_ciphers_of (some allowed_ciphers) alg_str r =
    if any (λ c. eq_ignore_ascii_case c alg_str) allowed_ciphers
    then r
    else violate "allowed_ciphers"
        (join ("Algorithm " ∷ alg_str ∷ " is not in the allowed ciphers list." ∷ [])) r

pub kdf_name : Option KdfParams → String
kdf_name (some k) = "Argon2id"
kdf_name none = "None"

pub check_kdfs_of : Option (List String) → String → PolicyResult → PolicyResult
check_kdfs_of none kdf_str r = r
check_kdfs_of (some allowed_kdfs) kdf_str r =
    if any (λ k. eq_ignore_ascii_case k kdf_str) allowed_kdfs
    then r
    else violate "allowed_kdfs" (join ("KDF " ∷ kdf_str ∷ " is not in the allowed KDFs list." ∷ []))
        r

-- 6.
unfoldable pub is_lco : AlgorithmId → Bool
is_lco triple_cascade_aes_xchacha_lco = true
is_lco _ = false

pub check_lco : Envelope → CapsulePolicy → PolicyResult → PolicyResult
check_lco e p r =
    if not p.allow_lco && is_lco e.header.algorithm
    then violate "allow_lco" "LCO obfuscation is disallowed by policy." r
    else r

-- 7.
pub is_hybrid : Recipient → Bool
is_hybrid (password n k) = false
is_hybrid (hybrid x m k) = true

pub is_cascade_profile : SecurityProfile → Bool
is_cascade_profile extreme = true
is_cascade_profile paranoid = true
is_cascade_profile _ = false

pub check_experimental : Envelope → CapsulePolicy → PolicyResult → PolicyResult
check_experimental e p r =
    if not p.allow_experimental
      && (is_cascade_profile e.header.profile || any is_hybrid e.header.recipients)
    then violate "allow_experimental"
        "Experimental profiles or hybrid recipients are disallowed by policy." r
    else r

-- The two rules that the public envelope cannot prove.
pub check_unprovable : CapsulePolicy → PolicyResult → PolicyResult
check_unprovable p r =
    let r' =
      if is_some p.require_metadata_profile
      then violate "require_metadata_profile"
          "The metadata profile is encrypted and cannot be verified by public-envelope policy linting."
          r
      else r in
    if is_some p.require_padding
    then violate "require_padding"
        "The padding profile is not authenticated as a public envelope field and cannot be verified by policy linting."
        r'
    else r'

-- 8.
pub check_label : Envelope → CapsulePolicy → PolicyResult → PolicyResult
check_label e p r =
    if not p.public_label_allowed && is_some e.public_label
    then violate "public_label_allowed" "Public labels are disallowed by policy." r
    else r

-- 9.
pub names_project : Option ReleaseMetadata → Bool
names_project none = false
names_project (some m) = is_some m.project_name

pub check_created_by : Envelope → CapsulePolicy → PolicyResult → PolicyResult
check_created_by e p r =
    if p.created_by_required && not (names_project e.release_metadata)
    then violate "created_by_required"
        "Policy requires author/project metadata, but none was found." r
    else if p.created_by_required
    then warn "created_by_required"
        "Author/project metadata is present but is not an identity claim unless covered by a signature from a trusted key."
        r
    else r

-- 10. `as u32`
pub recipient_count : Envelope → ℕ
recipient_count e = length e.header.recipients % 2 ^ 32

pub check_recipients : Envelope → CapsulePolicy → PolicyResult → PolicyResult
check_recipients e p r =
    if ltb (recipient_count e) p.require_recipient_count_min
    then violate "require_recipient_count_min"
        (join (
          "Policy requires at least "
          ∷ decimal p.require_recipient_count_min
          ∷ " recipients, but found "
          ∷ decimal (recipient_count e)
          ∷ "."
          ∷ []))
        r
    else r

-- 11.
pub approvals_count : Envelope → ℕ
approvals_count e = length (distinct (map (λ a. a.signer_fingerprint) e.approvals)) % 2 ^ 32

pub check_approvals : Envelope → CapsulePolicy → PolicyResult → PolicyResult
check_approvals e p r =
    if ltb (approvals_count e) p.require_approval_signatures_min
    then violate "require_approval_signatures_min"
        (join (
          "Policy requires at least "
          ∷ decimal p.require_approval_signatures_min
          ∷ " distinct approval fingerprints, but found "
          ∷ decimal (approvals_count e)
          ∷ "."
          ∷ []))
        r
    else if ltb 0 p.require_approval_signatures_min
    then warn "require_approval_signatures_min"
        "The required number of approval records is present, but policy linting cannot establish signer trust; verify each approval with trusted keys."
        r
    else r

pub lint_envelope : Envelope → CapsulePolicy → PolicyResult
lint_envelope e p =
    let r3 =
      check_kdf_of p.min_kdf_profile e.header.kdf
        (check_recovery e p (check_signature e p new_result)) in
    let r5 =
      check_kdfs_of p.allowed_kdfs (kdf_name e.header.kdf)
        (check_ciphers_of p.allowed_ciphers (algorithm_name e.header.algorithm) r3) in
    let r7 = check_unprovable p (check_experimental e p (check_lco e p r5)) in
    check_approvals e p (check_recipients e p (check_created_by e p (check_label e p r7)))
