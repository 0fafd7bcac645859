-- ===== src/Policy/Rules/Spec.antt =====
-- What a policy asks of an envelope.
use lvau.Base.{
  Among, ℕ, suc, ◌%◌, ◌^◌, ◌≤◌, ◌≡◌, ◌≢◌, ◌⊎◌, true, false, Option, none, some, List, [], ◌∷◌, map,
  String, All,
}
use lvau.Base.Bytes.{Bytes, codes}
use lvau.Envelope.{
  Envelope, KdfParams, triple_cascade_aes_xchacha_lco, paranoid, extreme, ReleaseMetadata,
}
use lvau.Policy.{
  MinKdfProfile, interactive, moderate, strong, CapsulePolicy, algorithm_name, to_lower,
}
use lvau.Policy.Rules.{kdf_name, is_hybrid, recipient_count}

-- The Argon2id costs that each profile asks for.
abbrev pub AtLeast : ℕ → ℕ → ℕ → KdfParams → Type 0
AtLeast m t p k = (m ≤ k.m_cost) × (t ≤ k.t_cost) × (p ≤ k.p_cost)

abbrev pub IsStrongEnough : Option MinKdfProfile → Option KdfParams → Type 0
IsStrongEnough (some interactive) (some k) = AtLeast 65536 2 1 k
IsStrongEnough (some moderate) (some k) = AtLeast 262144 3 2 k
IsStrongEnough (some strong) (some k) = AtLeast 1048576 4 4 k
IsStrongEnough _ _ = Unit

-- One of the listed names is the given one, up to the case of ASCII letters.
abbrev pub IsListed : String → List String → Type 0
IsListed name [] = ⊥
IsListed name (c ∷ cs) = (map to_lower (codes c) ≡ map to_lower (codes name)) ⊎ IsListed name cs

abbrev pub IsAllowed : Option (List String) → String → Type 0
IsAllowed none name = Unit
IsAllowed (some names) name = IsListed name names

-- So many different texts there are: one for each that does not occur again.
abbrev pub AreDifferent : List Bytes → ℕ → Type 0
AreDifferent [] n = n ≡ 0
AreDifferent (x ∷ xs) n =
    (Among x xs × AreDifferent xs n)
    ⊎ (All (λ y. y ≢ x) xs × ((m : ℕ) × (n ≡ suc m) × AreDifferent xs m))

-- So many different signers have approved, as a number of 32 bits.
abbrev pub HasApprovers : Envelope → ℕ → Type 0
HasApprovers e least =
    (n : ℕ) × AreDifferent (map (λ a. a.signer_fingerprint) e.approvals) n × (least ≤ n % 2 ^ 32)

-- What a policy asks of an envelope, rule by rule.
pub record Complies (e : Envelope) (p : CapsulePolicy) : Type 0 where
  pub signed : (p.require_signature ≡ false) ⊎ (e.signature ≢ none)
  pub recoverable : (p.require_recovery ≡ false) ⊎ (e.recovery_metadata ≢ none)
  pub strong_enough : IsStrongEnough p.min_kdf_profile e.header.kdf
  pub cipher_allowed : IsAllowed p.allowed_ciphers (algorithm_name e.header.algorithm)
  pub kdf_allowed : IsAllowed p.allowed_kdfs (kdf_name e.header.kdf)
  pub lco_allowed : (p.allow_lco ≡ true) ⊎ (e.header.algorithm ≢ triple_cascade_aes_xchacha_lco)
  pub experimental_allowed :
      (p.allow_experimental ≡ true)
      ⊎ ((e.header.profile ≢ extreme)
          × (e.header.profile ≢ paranoid)
          × All (λ r. is_hybrid r ≡ false) e.header.recipients)
  pub metadata_profile_unset : p.require_metadata_profile ≡ none
  pub padding_unset : p.require_padding ≡ none
  pub label_allowed : (p.public_label_allowed ≡ true) ⊎ (e.public_label ≡ none)
  pub created_by :
      (p.created_by_required ≡ false)
      ⊎ ((m : ReleaseMetadata) × (name : String) × (e.release_metadata ≡ some m)
          × (m.project_name ≡ some name))
  pub enough_recipients : p.require_recipient_count_min ≤ recipient_count e
  pub enough_approvals : HasApprovers e p.require_approval_signatures_min
