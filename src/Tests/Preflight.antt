-- ===== src/Tests/Preflight.antt =====
-- A preflight of the small capsule, under a policy that asks for a signature.
use lvau.Base.{◌≡◌, ◌↔◌, refl, true, some, [], ◌∷◌, String}
use lvau.Error.{ok, CryptoError}
use lvau.Policy.{CapsulePolicy, default_policy}
use lvau.Artifact.Cursor.{read_envelope-decode}
use lvau.Signing.{invalid_envelope}
use lvau.Preflight.{failed, examine, run_preflight}
use lvau.Preflight.Status.{Refused, run_preflight-failed_iff}
use lvau.Tests.Signed.{plain_envelope, toy_artifact, toy_signing, plain_file, plain_capsule}

abbrev strict : CapsulePolicy
strict = record default_policy { require_signature = true }

error_text : CryptoError → String
error_text e = "error"

runs :
    run_preflight toy_signing error_text plain_file (some (1 ∷ [])) (some strict)
    ≡ ok (examine toy_signing plain_file (some (1 ∷ [])) (some strict) plain_envelope)
unfolding run_preflight
runs =
    let (end_, decoded, rest) = plain_capsule invalid_envelope in
    rw (read_envelope-decode toy_artifact invalid_envelope plain_file plain_envelope end_ decoded)
      refl

run_preflight-failed_iff_example :
    ((examine toy_signing plain_file (some (1 ∷ [])) (some strict) plain_envelope).status ≡ failed)
    ↔ Refused toy_signing plain_file (some (1 ∷ [])) (some strict)
run_preflight-failed_iff_example =
    run_preflight-failed_iff toy_signing error_text plain_file (some (1 ∷ [])) (some strict)
      (examine toy_signing plain_file (some (1 ∷ [])) (some strict) plain_envelope) runs
