-- ===== src/Policy/Rules/Sound.antt =====
-- What a clean lint means.
use lvau.Base.{◌≡◌, ◌↔◌, refl, true}
use lvau.Envelope.{Envelope}
use lvau.Policy.{CapsulePolicy, new_result, is_valid, algorithm_name}
use lvau.Policy.Rules.{kdf_name, lint_envelope}
use lvau.Policy.Rules.Spec.{Complies}
use lvau.Policy.Rules.Decide.{signature_rule, recovery_rule, kdf_rule, ciphers_rule, kdfs_rule}
use lvau.Policy.Rules.Each.{
  lco_rule, experimental_rule, unprovable_rule, label_rule, created_by_rule, recipients_rule,
  approvals_rule,
}

-- The lint reports no violation exactly when the envelope complies with each of the policy's thirteen rules.
pub lint_envelope-Complies :
    (e : Envelope) (p : CapsulePolicy) → (is_valid (lint_envelope e p) ≡ true) ↔ Complies e p
unfolding lint_envelope
lint_envelope-Complies e p = (
  (λ h.
      let (v11, q11) = (approvals_rule e p _).0 h in
      let (v10, q10) = (recipients_rule e p _).0 v11 in
      let (v9, q9) = (created_by_rule e p _).0 v10 in
      let (v8, q8) = (label_rule e p _).0 v9 in
      let (v7, q7) = (unprovable_rule p _).0 v8 in
      let (v6, q6) = (experimental_rule e p _).0 v7 in
      let (v5, q5) = (lco_rule e p _).0 v6 in
      let (v4, q4) = (kdfs_rule p.allowed_kdfs (kdf_name e.header.kdf) _).0 v5 in
      let (v3, q3) = (ciphers_rule p.allowed_ciphers (algorithm_name e.header.algorithm) _).0 v4 in
      let (v2, q2) = (kdf_rule p.min_kdf_profile e.header.kdf _).0 v3 in
      let (v1, q1) = (recovery_rule e p _).0 v2 in
      let (v0, q0) = (signature_rule e p new_result).0 v1 in
      record {
        signed = q0;
        recoverable = q1;
        strong_enough = q2;
        cipher_allowed = q3;
        kdf_allowed = q4;
        lco_allowed = q5;
        experimental_allowed = q6;
        metadata_profile_unset = q7.0;
        padding_unset = q7.1;
        label_allowed = q8;
        created_by = q9;
        enough_recipients = q10;
        enough_approvals = q11;
      }),
  (λ c.
      let v1 = (signature_rule e p new_result).1 (refl, c.signed) in
      let v2 = (recovery_rule e p _).1 (v1, c.recoverable) in
      let v3 = (kdf_rule p.min_kdf_profile e.header.kdf _).1 (v2, c.strong_enough) in
      let v4 =
        (ciphers_rule p.allowed_ciphers (algorithm_name e.header.algorithm) _).1
          (v3, c.cipher_allowed) in
      let v5 = (kdfs_rule p.allowed_kdfs (kdf_name e.header.kdf) _).1 (v4, c.kdf_allowed) in
      let v6 = (lco_rule e p _).1 (v5, c.lco_allowed) in
      let v7 = (experimental_rule e p _).1 (v6, c.experimental_allowed) in
      let v8 = (unprovable_rule p _).1 (v7, (c.metadata_profile_unset, c.padding_unset)) in
      let v9 = (label_rule e p _).1 (v8, c.label_allowed) in
      let v10 = (created_by_rule e p _).1 (v9, c.created_by) in
      let v11 = (recipients_rule e p _).1 (v10, c.enough_recipients) in
      (approvals_rule e p _).1 (v11, c.enough_approvals)),
)
