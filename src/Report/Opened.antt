-- ===== src/Report/Opened.antt =====
-- What a report says of a password.
use lvau.Base.{◌≡◌, ◌↔◌, refl, sym, ap, ◌∙◌, true, Option, some, String}
use lvau.Base.Bytes.{Bytes}
use lvau.Error.{Result, ok, err, stuck, CryptoError, >>=-eq-ok, ok_injective}
use lvau.Policy.{CapsulePolicy}
use lvau.Capsule.Decrypt.{cursor, verify_file_password}
use lvau.Signing.{SigningBackend}
use lvau.Bundle.Manifest.{BundleBackend}
use lvau.Preflight.{run_preflight}
use lvau.Report.{FullReport, password, succeeded, try_decryption, generate_report}

some_injective : {A : Type 0} {x y : A} → some x ≡ some y → x ≡ y
some_injective h = cc

succeeded_iff : (r : Result (Unit {0}) CryptoError) → (some (succeeded r) ≡ some true) ↔ (r ≡ ok tt)
succeeded_iff (ok u) = (λ h. refl, λ h. refl)
succeeded_iff (err e) = (λ h. absurd (cc), λ h. absurd (cc))
succeeded_iff stuck = (λ h. absurd (cc), λ h. absurd (cc))

-- A report that is given a password, with a seed or none, says that decryption succeeded exactly where the
-- verification of the file with that password and seed succeeds.
pub generate_report-verify_file_password :
    (s : SigningBackend) (bundles : BundleBackend) (error_text : CryptoError → String)
    (path timestamp : String) (file pass : Bytes) (seed key : Option Bytes)
    (policy : Option CapsulePolicy) (report : FullReport)
    → generate_report s bundles error_text path timestamp file key policy
        (some (password pass seed))
      ≡ ok report
    → (report.decryption_successful ≡ some true)
      ↔ (verify_file_password s.backend (cursor file) pass seed ≡ ok tt)
unfolding generate_report try_decryption
generate_report-verify_file_password s bundles error_text path timestamp file pass seed key policy
      report h =
    let (preflight, c, h1) = >>=-eq-ok (run_preflight s error_text file key policy) _ h in
    let same : report.decryption_successful
        ≡ some (succeeded (verify_file_password s.backend (cursor file) pass seed)) =
      ap (λ r. r.decryption_successful) (ok_injective (ok report) refl (sym h1)) in
    let iff = succeeded_iff (verify_file_password s.backend (cursor file) pass seed) in
    (λ k. iff.0 (sym same ∙ k), λ k. same ∙ iff.1 k)
