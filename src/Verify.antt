-- ===== src/Verify.antt =====
-- internal/verify: the verdict of a validation run, and the validation allowlist.
pub mod Verdict
pub mod Runner
pub mod Honest
use the_foundry.Prelude.{
  ℕ, Bool, true, false, not, String, List, [], ◌∷◌, leb, ℤ, is_zero, if◌then◌else◌,
}

pub record CommandRecord : Type 0 where
  pub exit_code : ℤ
  pub timed_out : Bool
  pub policy_violation : Bool

abbrev pub Classification : Type 0
Classification = String

abbrev pub verification_failed : Classification
verification_failed = "verification-failed"

abbrev pub policy_violation : Classification
policy_violation = "policy-violation"

abbrev pub retryable : Classification
retryable = "retryable"

abbrev pub no_progress : Classification
no_progress = "no-progress"

abbrev pub no_validation_declared : Classification
no_validation_declared = "no-validation-declared"

-- The loop over the records; the classification of a pass is "".
unfoldable pub scan : List CommandRecord → ℕ → Bool × Classification
scan [] attempt = (true, "")
scan (rec ∷ records) attempt =
    if rec.policy_violation
    then (false, policy_violation)
    else if rec.timed_out
    then (if leb attempt 1 then (false, retryable) else (false, no_progress))
    else if not (is_zero rec.exit_code)
    then (false, verification_failed)
    else scan records attempt

unfoldable pub evaluate : List CommandRecord → ℕ → Bool × Classification
unfolding scan
evaluate [] attempt = (false, no_validation_declared)
evaluate (rec ∷ records) attempt = scan (rec ∷ records) attempt
