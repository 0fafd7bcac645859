-- ===== src/Policy/Rules/Decide.antt =====
-- The first five rules decide what they ask, and the form of a rule.
use lvau.Base.{
  ◌≡◌, ◌≢◌, ◌↔◌, ◌⊎◌, refl, sym, Bool, true, false, ◌&&◌, Option, none, some, List, [], ◌∷◌, ◌++◌,
  map, String, arith, any, is_empty, is_none, if◌then◌else◌, ◌∙◌,
}
use lvau.Base.Bytes.{codes, bytes_eq_iff}
use lvau.Envelope.{Envelope, KdfParams}
use lvau.Policy.{
  MinKdfProfile, interactive, moderate, strong, CapsulePolicy, PolicyResult, Finding, is_valid,
  violate, warn, to_lower, eq_ignore_ascii_case,
}
use lvau.Policy.Rules.{
  check_signature, check_recovery, actual_profile, kdf_is_weaker, check_kdf_of, check_ciphers_of,
  check_kdfs_of,
}
use lvau.Policy.Rules.Spec.{IsStrongEnough, IsListed, IsAllowed}

pub is_empty-snoc : (xs : List Finding) (v : Finding) → is_empty (xs ++ (v ∷ [])) ≡ false
is_empty-snoc [] v = refl
is_empty-snoc (x ∷ xs) v = refl

-- A rule is passed by what is valid before and meets it, and by nothing else.
abbrev pub Decides : (PolicyResult → PolicyResult) → Type 0 → Type 0
Decides check P = (r : PolicyResult) → (is_valid (check r) ≡ true) ↔ ((is_valid r ≡ true) × P)

pub is_valid-violate : (n t : String) (r : PolicyResult) → is_valid (violate n t r) ≡ false
unfolding violate
is_valid-violate n t r = is_empty-snoc r.violations _

-- Each rule has this form: a violation, or a result that is as valid as before.
pub decides :
    {P : Type 0} (b : Bool) (n t : String) (r r' : PolicyResult)
    → is_valid r' ≡ is_valid r
    → (b ≡ false) ↔ P
    → (is_valid (if b then violate n t r else r') ≡ true) ↔ ((is_valid r ≡ true) × P)
decides true n t r r' same iff =
    ((λ h. absurd (cc (is_valid-violate n t r))), (λ h. absurd (cc (iff.1 h.1))))
decides false n t r r' same iff = ((λ h. (sym same ∙ h, iff.0 refl)), (λ h. same ∙ h.0))

pub as_valid :
    (b : Bool) (n t : String) (r : PolicyResult)
    → is_valid (if b then warn n t r else r) ≡ is_valid r
unfolding warn
as_valid true n t r = refl
as_valid false n t r = refl

pub signature_rule :
    (e : Envelope) (p : CapsulePolicy)
    → Decides (check_signature e p) ((p.require_signature ≡ false) ⊎ (e.signature ≢ none))
unfolding check_signature
signature_rule e p r =
    decides (p.require_signature && is_none e.signature) _ _ r _
      (as_valid p.require_signature _ _ r) (ground arith)

pub recovery_rule :
    (e : Envelope) (p : CapsulePolicy)
    → Decides (check_recovery e p) ((p.require_recovery ≡ false) ⊎ (e.recovery_metadata ≢ none))
unfolding check_recovery
recovery_rule e p r =
    decides (p.require_recovery && is_none e.recovery_metadata) _ _ r _
      (as_valid p.require_recovery _ _ r) (ground arith)

-- The test of the third rule, which first names the profile of the costs, passes exactly when each of the three
-- costs is at least that of the profile asked for.
pub kdf_is_weaker_iff :
    (m : MinKdfProfile) (k : KdfParams)
    → (kdf_is_weaker m k ≡ false) ↔ IsStrongEnough (some m) (some k)
unfolding kdf_is_weaker actual_profile
kdf_is_weaker_iff interactive k = ground arith
kdf_is_weaker_iff moderate k = ground arith
kdf_is_weaker_iff strong k = ground arith

pub kdf_rule :
    (m : Option MinKdfProfile) (k : Option KdfParams)
    → Decides (check_kdf_of m k) (IsStrongEnough m k)
unfolding check_kdf_of
kdf_rule none k r = ((λ h. (h, tt)), (λ h. h.0))
kdf_rule (some interactive) none r = ((λ h. (h, tt)), (λ h. h.0))
kdf_rule (some _) none r = ((λ h. (h, tt)), (λ h. h.0))
kdf_rule (some m) (some k) r = decides (kdf_is_weaker m k) _ _ r r refl (kdf_is_weaker_iff m k)

pub any-IsListed :
    (name : String) (cs : List String)
    → (any (λ c. eq_ignore_ascii_case c name) cs ≡ true) ↔ IsListed name cs
unfolding eq_ignore_ascii_case
any-IsListed name [] = ground arith
any-IsListed name (c ∷ cs) =
    ground (
      arith,
      bytes_eq_iff (map to_lower (codes c)) (map to_lower (codes name)),
      any-IsListed name cs,
    )

-- The same for a rule that is written the other way round.
pub decides_not :
    {P : Type 0} (b : Bool) (n t : String) (r : PolicyResult)
    → (b ≡ true) ↔ P
    → (is_valid (if b then r else violate n t r) ≡ true) ↔ ((is_valid r ≡ true) × P)
decides_not true n t r iff = ((λ h. (h, iff.0 refl)), (λ h. h.0))
decides_not false n t r iff =
    ((λ h. absurd (cc (is_valid-violate n t r))), (λ h. absurd (cc (iff.1 h.1))))

pub ciphers_rule :
    (o : Option (List String)) (name : String)
    → Decides (check_ciphers_of o name) (IsAllowed o name)
unfolding check_ciphers_of
ciphers_rule none name r = ((λ h. (h, tt)), (λ h. h.0))
ciphers_rule (some cs) name r =
    decides_not (any (λ c. eq_ignore_ascii_case c name) cs) _ _ r (any-IsListed name cs)

pub kdfs_rule :
    (o : Option (List String)) (name : String) → Decides (check_kdfs_of o name) (IsAllowed o name)
unfolding check_kdfs_of
kdfs_rule none name r = ((λ h. (h, tt)), (λ h. h.0))
kdfs_rule (some cs) name r =
    decides_not (any (λ c. eq_ignore_ascii_case c name) cs) _ _ r (any-IsListed name cs)
