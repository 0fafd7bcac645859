-- ===== src/Policy/Rules/Each.antt =====
-- The sixth and the later rules decide what they ask.
use lvau.Base.{
  ◌≤◌, ◌≡◌, ◌≢◌, ◌↔◌, ◌⊎◌, inl, inr, refl, ap, Bool, true, false, not, ◌&&◌, ◌||◌, Option, none,
  some, List, [], ◌∷◌, String, arith, any, is_some, ltb, if◌then◌else◌, All, Option-cases,
}
use lvau.Envelope.{
  Envelope, AlgorithmId, triple_cascade_aes_xchacha_lco, SecurityProfile, paranoid, extreme,
  Recipient, ReleaseMetadata,
}
use lvau.Policy.{CapsulePolicy, violate}
use lvau.Policy.Rules.{
  check_lco, is_lco, check_experimental, is_hybrid, is_cascade_profile, check_unprovable,
  check_label, check_created_by, names_project, check_recipients, recipient_count, check_approvals,
  approvals_count,
}
use lvau.Policy.Rules.Spec.{HasApprovers}
use lvau.Policy.Rules.Approvers.{approvals_count-HasApprovers}
use lvau.Policy.Rules.Decide.{Decides, decides, as_valid}

pub is_lco_iff : (a : AlgorithmId) → (is_lco a ≡ true) ↔ (a ≡ triple_cascade_aes_xchacha_lco)
unfolding is_lco
is_lco_iff triple_cascade_aes_xchacha_lco = ground arith
is_lco_iff _ = ground arith

pub lco_rule :
    (e : Envelope) (p : CapsulePolicy)
    → Decides
        (check_lco e p)
        ((p.allow_lco ≡ true) ⊎ (e.header.algorithm ≢ triple_cascade_aes_xchacha_lco))
unfolding check_lco
lco_rule e p r =
    decides (not p.allow_lco && is_lco e.header.algorithm) _ _ r r refl
      (ground (arith, is_lco_iff e.header.algorithm))

pub is_cascade_profile_iff :
    (s : SecurityProfile) → (is_cascade_profile s ≡ false) ↔ ((s ≢ extreme) × (s ≢ paranoid))
unfolding is_cascade_profile
is_cascade_profile_iff extreme = ground arith
is_cascade_profile_iff _ = ground arith

pub any-eq-false {ℓ} :
    {A : Type ℓ} (p : A → Bool) (xs : List A) → (any p xs ≡ false) ↔ All (λ x. p x ≡ false) xs
any-eq-false p [] = ground arith
any-eq-false p (x ∷ xs) = ground (arith, any-eq-false p xs)

pub or_false : (a b : Bool) → ((a || b) ≡ false) ↔ ((a ≡ false) × (b ≡ false))
or_false a b = ground arith

-- The recipients and profiles that the seventh rule takes for stable.
pub experimental_iff :
    (s : SecurityProfile) (rs : List Recipient)
    → ((is_cascade_profile s || any is_hybrid rs) ≡ false)
      ↔ ((s ≢ extreme) × (s ≢ paranoid) × All (λ r. is_hybrid r ≡ false) rs)
experimental_iff s rs =
    let (split, unsplit) = or_false (is_cascade_profile s) (any is_hybrid rs) in
    let (stable, stable') = is_cascade_profile_iff s in
    let (none_hybrid, none_hybrid') = any-eq-false is_hybrid rs in
    (
      (λ h. let (x, y) = stable (split h).0 in (x, y, none_hybrid (split h).1)),
      (λ h. unsplit (stable' (h.0, h.1), none_hybrid' h.2)),
    )

pub allowed_or :
    {P : Type 0} (a b : Bool) → (b ≡ false) ↔ P → ((not a && b) ≡ false) ↔ ((a ≡ true) ⊎ P)
allowed_or true b iff = ((λ h. inl refl), (λ h. refl))
allowed_or false b iff =
    ((λ h. inr (iff.0 h)), (λ h. elim h [ inl e ↦ absurd (cc e) | inr q ↦ iff.1 q ]))

pub experimental_rule :
    (e : Envelope) (p : CapsulePolicy)
    → Decides (check_experimental e p) (
        (p.allow_experimental ≡ true)
        ⊎ ((e.header.profile ≢ extreme)
            × (e.header.profile ≢ paranoid)
            × All (λ r. is_hybrid r ≡ false) e.header.recipients))
unfolding check_experimental
experimental_rule e p r =
    decides
      (not p.allow_experimental
        && (is_cascade_profile e.header.profile || any is_hybrid e.header.recipients))
      _ _ r r refl
      (allowed_or p.allow_experimental _ (experimental_iff e.header.profile e.header.recipients))

pub is_some-eq-false {ℓ} : {A : Type ℓ} (o : Option A) → (is_some o ≡ false) ↔ (o ≡ none)
is_some-eq-false none = ground arith
is_some-eq-false (some a) = ground arith

pub unprovable_rule :
    (p : CapsulePolicy)
    → Decides
        (check_unprovable p)
        ((p.require_metadata_profile ≡ none) × (p.require_padding ≡ none))
unfolding check_unprovable
unprovable_rule p r =
    let r' =
      if is_some p.require_metadata_profile
      then violate "require_metadata_profile"
          "The metadata profile is encrypted and cannot be verified by public-envelope policy linting."
          r
      else r in
    let (first, first') =
      decides (is_some p.require_metadata_profile) "require_metadata_profile"
        "The metadata profile is encrypted and cannot be verified by public-envelope policy linting."
        r r refl (is_some-eq-false p.require_metadata_profile) in
    let (second, second') =
      decides (is_some p.require_padding) "require_padding"
        "The padding profile is not authenticated as a public envelope field and cannot be verified by policy linting."
        r' r' refl (is_some-eq-false p.require_padding) in
    (
      (λ h. let (v, q) = second h in let (w, m) = first v in (w, (m, q))),
      (λ h. second' (first' (h.0, h.1.0), h.1.1)),
    )

pub label_rule :
    (e : Envelope) (p : CapsulePolicy)
    → Decides (check_label e p) ((p.public_label_allowed ≡ true) ⊎ (e.public_label ≡ none))
unfolding check_label
label_rule e p r =
    decides (not p.public_label_allowed && is_some e.public_label) _ _ r r refl
      (allowed_or p.public_label_allowed _ (is_some-eq-false e.public_label))

abbrev pub NamesProject : Option ReleaseMetadata → Type 0
NamesProject o =
    (m : ReleaseMetadata) × (name : String) × (o ≡ some m) × (m.project_name ≡ some name)

pub names_project_iff :
    (o : Option ReleaseMetadata) → (not (names_project o) ≡ false) ↔ NamesProject o
unfolding names_project
names_project_iff none = ((λ h. absurd (cc)), (λ h. absurd (cc h.2)))
names_project_iff (some m) = elim (Option-cases m.project_name) [
  | inl e ↦ ((λ h. absurd (ground (arith, e, h))), (λ h. absurd (ground (arith, e, h.2, h.3))))
  | inr (name, e) ↦ ((λ h. (m, name, refl, e)), (λ h. ap (λ o. not (is_some o)) e))
]

pub required_or :
    {P : Type 0} (a b : Bool) → (not b ≡ false) ↔ P → ((a && not b) ≡ false) ↔ ((a ≡ false) ⊎ P)
required_or false b iff = ((λ h. inl refl), (λ h. refl))
required_or true b iff =
    ((λ h. inr (iff.0 h)), (λ h. elim h [ inl e ↦ absurd (cc e) | inr q ↦ iff.1 q ]))

pub created_by_rule :
    (e : Envelope) (p : CapsulePolicy)
    → Decides
        (check_created_by e p)
        ((p.created_by_required ≡ false) ⊎ NamesProject e.release_metadata)
unfolding check_created_by
created_by_rule e p r =
    decides (p.created_by_required && not (names_project e.release_metadata)) _ _ r _
      (as_valid p.created_by_required _ _ r)
      (required_or p.created_by_required _ (names_project_iff e.release_metadata))

pub recipients_rule :
    (e : Envelope) (p : CapsulePolicy)
    → Decides (check_recipients e p) (p.require_recipient_count_min ≤ recipient_count e)
unfolding check_recipients
recipients_rule e p r =
    decides (ltb (recipient_count e) p.require_recipient_count_min) _ _ r r refl (ground arith)

pub approvals_rule :
    (e : Envelope) (p : CapsulePolicy)
    → Decides (check_approvals e p) (HasApprovers e p.require_approval_signatures_min)
unfolding check_approvals
approvals_rule e p r =
    let asked : (ltb (approvals_count e) p.require_approval_signatures_min ≡ false)
        ↔ (p.require_approval_signatures_min ≤ approvals_count e) =
      ground arith in
    let counted = approvals_count-HasApprovers e p.require_approval_signatures_min in
    decides (ltb (approvals_count e) p.require_approval_signatures_min) _ _ r _
      (as_valid (ltb 0 p.require_approval_signatures_min) _ _ r)
      (λ h. counted.0 (asked.0 h), λ h. asked.1 (counted.1 h))
