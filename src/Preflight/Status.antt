-- ===== src/Preflight/Status.antt =====
-- When a preflight fails.
use lvau.Base.{
  ℕ, ◌≡◌, ◌≢◌, ◌↔◌, ◌⊎◌, inl, inr, refl, sym, ap, subst, ◌∙◌, Bool, true, false, not, ◌&&◌,
  Bool-cases, Option, none, some, List, [], ◌∷◌, ◌++◌, String, is_empty, ◌==◌, arith, if◌then◌else◌,
}
use lvau.Base.Bytes.{Bytes}
use lvau.Error.{ok_injective, Result, ok, err, stuck, CryptoError}
use lvau.Envelope.{Envelope, EnvelopeSignature, legacy_version}
use lvau.Reader.{Reader}
use lvau.Policy.{CapsulePolicy, is_valid}
use lvau.Policy.Rules.{lint_envelope}
use lvau.Policy.Rules.Spec.{Complies}
use lvau.Policy.Rules.Sound.{lint_envelope-Complies}
use lvau.Capsule.{read_envelope}
use lvau.Capsule.Decrypt.{cursor}
use lvau.Signing.{SigningBackend, SigningError, verify_signature}
use lvau.Preflight.{
  all_ok, warned, failed, PreflightResult, initial, not_parsed, report_of, describe, note_version,
  is_cascade, is_triple, note_experimental, note_verified, note_signature, note_policy, with_status,
  examine, run_preflight,
}

-- A signature is there, a key is given, and it does not verify.
abbrev pub SignatureFails :
    SigningBackend → Bytes → Option Bytes → Option EnvelopeSignature → Type 0
SignatureFails s file key none = ⊥
SignatureFails s file none (some sig) = ⊥
SignatureFails s file (some key) (some sig) =
    (fingerprint : Bytes) → verify_signature s file key ≢ ok fingerprint

-- A policy is given that the envelope does not comply with, and no override is authenticated.
abbrev pub PolicyFails : Option CapsulePolicy → Envelope → Type 0
PolicyFails none e = ⊥
PolicyFails (some p) e =
    (Complies e p → ⊥) × ((e.policy_overridden ≡ false) ⊎ (e.header.version ≡ legacy_version))

abbrev HasErrors : PreflightResult → Type 0
HasErrors r = is_empty r.errors ≡ false

nonempty_append : {A : Type 0} (xs : List A) (x : A) → is_empty (xs ++ (x ∷ [])) ≡ false
nonempty_append [] x = refl
nonempty_append (y ∷ ys) x = refl

note_version-errors : (e : Envelope) (r : PreflightResult) → (note_version e r).errors ≡ r.errors
unfolding note_version
note_version-errors e r = elim (Bool-cases (e.header.version == legacy_version)) [
  | inl h ↦ rw h refl
  | inr h ↦ rw h refl
]

note_experimental-errors :
    (e : Envelope) (r : PreflightResult) → (note_experimental e r).errors ≡ r.errors
unfolding note_experimental
note_experimental-errors e r = elim (Bool-cases (is_cascade e.header.profile)) [
  | inl h ↦ elim (Bool-cases (is_triple e.header.algorithm)) [
    | inl k ↦ rw (h, k) refl
    | inr k ↦ rw (h, k) refl
  ]
  | inr h ↦ elim (Bool-cases (is_triple e.header.algorithm)) [
    | inl k ↦ rw (h, k) refl
    | inr k ↦ rw (h, k) refl
  ]
]

verified_iff :
    (v : Result Bytes SigningError) (r : PreflightResult)
    → r.errors ≡ []
    → HasErrors (note_verified v r) ↔ ((fingerprint : Bytes) → v ≢ ok fingerprint)
verified_iff (ok fingerprint) r h = (
  λ k. let clean : is_empty r.errors ≡ true = ap is_empty h in absurd (cc),
  λ k. absurd (k fingerprint refl),
)
verified_iff (err error) r h = (
  λ k fingerprint same. absurd (cc),
  λ k. nonempty_append r.errors "Signature verification failed",
)
verified_iff stuck r h = (
  λ k fingerprint same. absurd (cc),
  λ k. nonempty_append r.errors "Signature verification failed",
)

signature_iff :
    (s : SigningBackend) (file : Bytes) (key : Option Bytes) (sig : Option EnvelopeSignature)
    (r : PreflightResult)
    → r.errors ≡ []
    → HasErrors (note_signature s file key sig r) ↔ SignatureFails s file key sig
unfolding note_signature
signature_iff s file key none r h =
    (λ k. let clean : is_empty r.errors ≡ true = ap is_empty h in absurd (cc), λ k. absurd k)
signature_iff s file none (some sig) r h =
    (λ k. let clean : is_empty r.errors ≡ true = ap is_empty h in absurd (cc), λ k. absurd k)
signature_iff s file (some key) (some sig) r h = verified_iff (verify_signature s file key) _ h

policy_iff :
    (policy : Option CapsulePolicy) (e : Envelope) (r : PreflightResult)
    → HasErrors (note_policy policy e r) ↔ (HasErrors r ⊎ PolicyFails policy e)
unfolding note_policy
policy_iff none e r = (λ h. inl h, λ h. elim h [ inl k ↦ k | inr k ↦ absurd k ])
policy_iff (some p) e r = elim (Bool-cases (is_valid (lint_envelope e p))) [
  | inl valid ↦
      let complies = (lint_envelope-Complies e p).0 valid in
      rw valid (λ h. inl h, λ h. elim h [ inl k ↦ k | inr k ↦ absurd (k.0 complies) ])
  | inr violated ↦
      let breaks : Complies e p → ⊥ =
        λ c. let valid = (lint_envelope-Complies e p).1 c in absurd (cc) in
      elim (Bool-cases (e.policy_overridden && not (e.header.version == legacy_version))) [
        | inl overridden ↦
            rw (violated, overridden)
              (
                λ h. inl h,
                λ h. elim h [
                  | inl k ↦ k
                  | inr k ↦ absurd (protected e.policy_overridden e.header.version overridden k.1)
                ],
              )
        | inr open_ ↦
            let unprotected : (e.policy_overridden ≡ false) ⊎ (e.header.version ≡ legacy_version) =
              not_both e.policy_overridden e.header.version open_ in
            rw (violated, open_)
              (
                λ h. inr (breaks, unprotected),
                λ h. nonempty_append r.errors "Artifact violates local policy",
              )
      ]
]
  where
    protected :
        (a : Bool) (v : ℕ)
        → (a && not (v == legacy_version)) ≡ true
        → (a ≡ false) ⊎ (v ≡ legacy_version)
        → ⊥
    protected a v h (inl off) = absurd (cc)
    protected a v h (inr old) = absurd (ground arith)

    not_both :
        (a : Bool) (v : ℕ)
        → (a && not (v == legacy_version)) ≡ false
        → (a ≡ false) ⊎ (v ≡ legacy_version)
    not_both a v h = ground arith

not_failed : (b : Bool) → (if b then warned else all_ok) ≢ failed
not_failed true h = absurd (cc)
not_failed false h = absurd (cc)

status_iff : (r : PreflightResult) → ((with_status r).status ≡ failed) ↔ HasErrors r
unfolding with_status
status_iff r = elim (Bool-cases (is_empty r.errors)) [
  | inl clean ↦ rw clean (λ h. absurd (not_failed _ h), λ h. absurd (cc))
  | inr errors ↦ rw errors (λ h. refl, λ h. refl)
]

abbrev Fails : SigningBackend → Bytes → Option Bytes → Option CapsulePolicy → Envelope → Type 0
Fails s file key policy e = SignatureFails s file key e.signature ⊎ PolicyFails policy e

describe-errors : (e : Envelope) (r : PreflightResult) → (describe e r).errors ≡ r.errors
unfolding describe
describe-errors e r = refl

examine_iff :
    (s : SigningBackend) (file : Bytes) (key : Option Bytes) (policy : Option CapsulePolicy)
    (e : Envelope)
    → ((examine s file key policy e).status ≡ failed) ↔ Fails s file key policy e
unfolding examine
examine_iff s file key policy e =
    let noted = note_experimental e (note_version e (describe e initial)) in
    let clean : noted.errors ≡ [] =
      note_experimental-errors e (note_version e (describe e initial))
      ∙ note_version-errors e (describe e initial)
      ∙ describe-errors e initial in
    let signed = note_signature s file key e.signature noted in
    let by_status = status_iff (note_policy policy e signed) in
    let by_policy = policy_iff policy e signed in
    let by_signature = signature_iff s file key e.signature noted clean in
    (
      λ h. elim (by_policy.0 (by_status.0 h)) [ inl k ↦ inl (by_signature.0 k) | inr k ↦ inr k ],
      λ h. by_status.1 (by_policy.1 (elim h [ inl k ↦ inl (by_signature.1 k) | inr k ↦ inr k ])),
    )

-- The file is no capsule, or it is one that fails.
abbrev pub Refused : SigningBackend → Bytes → Option Bytes → Option CapsulePolicy → Type 0
Refused s file key policy =
    ((error : CryptoError) × (read_envelope s.backend (cursor file) ≡ err error))
    ⊎ ((e : Envelope) × (left : Reader) × (read_envelope s.backend (cursor file) ≡ ok (e, left))
        × (SignatureFails s file key e.signature ⊎ PolicyFails policy e))

envelope_injective :
    (m : Result (Envelope × Reader) CryptoError) (e e' : Envelope) (left left' : Reader)
    → m ≡ ok (e, left)
    → m ≡ ok (e', left')
    → e' ≡ e
envelope_injective m e e' left left' h k = cc

by_read :
    (s : SigningBackend) (error_text : CryptoError → String) (file : Bytes) (key : Option Bytes)
    (policy : Option CapsulePolicy) (res : PreflightResult)
    (m : Result (Envelope × Reader) CryptoError)
    → read_envelope s.backend (cursor file) ≡ m
    → report_of s error_text file key policy m ≡ ok res
    → (res.status ≡ failed) ↔ Refused s file key policy
by_read s error_text file key policy res (ok (e, left)) read h =
    let same : examine s file key policy e ≡ res =
      ok_injective (ok (examine s file key policy e)) refl h in
    let status : (examine s file key policy e).status ≡ res.status = ap (λ r. r.status) same in
    let iff = examine_iff s file key policy e in
    (
      λ k. inr (e, left, read, iff.0 (status ∙ k)),
      λ k.
          sym status
          ∙ iff.1 (elim k [
            | inl (error, other) ↦ absurd (cc)
            | inr (e', left', other, fails) ↦
                subst (Fails s file key policy)
                  (envelope_injective (read_envelope s.backend (cursor file)) e e' left left' read
                    other)
                  fails
          ]),
    )
by_read s error_text file key policy res (err error) read h =
    let same : not_parsed (error_text error) ≡ res =
      ok_injective (ok (not_parsed (error_text error))) refl h in
    (λ k. inl (error, read), λ k. sym (ap (λ r. r.status) same))
by_read s error_text file key policy res stuck read h = absurd (cc)

-- Whatever the texts of errors are, a preflight that returns has the status "fail" exactly where the envelope cannot
-- be read; or it carries a signature that does not verify under the key that is given; or a policy is given that the
-- envelope does not comply with, and the envelope has no override flag or is of the legacy version.
pub run_preflight-failed_iff :
    (s : SigningBackend) (error_text : CryptoError → String) (file : Bytes) (key : Option Bytes)
    (policy : Option CapsulePolicy) (res : PreflightResult)
    → run_preflight s error_text file key policy ≡ ok res
    → (res.status ≡ failed) ↔ Refused s file key policy
unfolding run_preflight
run_preflight-failed_iff s error_text file key policy res h =
    by_read s error_text file key policy res (read_envelope s.backend (cursor file)) refl h
