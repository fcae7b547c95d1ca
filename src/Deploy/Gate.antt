-- ===== src/Deploy/Gate.antt =====
-- internal/deploy/gate.go: whether a deployment may go ahead without a human.
pub mod Exact
use the_foundry.Prelude.{
  ◌≡◌, ◌↔◌, ==-false→ne, ◌∙◌, sym, ap, ℕ, refl, Bool, true, false, not, ◌&&◌, ◌||◌, String, List,
  [], ◌∷◌, ◌==◌, arith, any, is_empty, sort_by, sort_strings, str_ltb, All, any-sort_by, Bool-cases,
  inl, inr, if◌then◌else◌,
}
use the_foundry.State.Registry.{running, waiting, known_reason, known_in}
use the_foundry.Recovery.Liveness.{Config, WorkflowSnapshot, healthy, classify, classify_healthy}

pub record GateInput : Type 0 where
  pub personal_profile : Bool
  pub deployment_target_allowlisted : Bool
  pub mission_readiness_complete : Bool
  pub spend_within_envelope : Bool
  pub deterministic_verification_passed : Bool
  pub synthetic_or_real_canary_passed : Bool
  pub rollback_rehearsed : Bool
  pub database_changes_reversible_or_backward_compatible : Bool
  pub no_regulated_data : Bool
  pub no_new_secret_scope : Bool
  pub no_authority_expansion : Bool
  pub health_checks_defined : Bool
  pub operation_reconciliation_enabled : Bool

pub record GateResult : Type 0 where
  pub passed : Bool
  pub failed : List String
  pub mode : String
  pub wait_reason : String

-- The conditions with the names that the code gives them, in its order.
abbrev pub conditions : GateInput → List (String × Bool)
conditions i =
    ("personal-profile", i.personal_profile)
    ∷ ("deployment-target-allowlisted", i.deployment_target_allowlisted)
    ∷ ("mission-readiness-complete", i.mission_readiness_complete)
    ∷ ("spend-within-envelope", i.spend_within_envelope)
    ∷ ("deterministic-verification-passed", i.deterministic_verification_passed)
    ∷ ("synthetic-or-real-canary-passed", i.synthetic_or_real_canary_passed)
    ∷ ("rollback-rehearsed", i.rollback_rehearsed)
    ∷ (
      "database-changes-reversible-or-backward-compatible",
      i.database_changes_reversible_or_backward_compatible,
    )
    ∷ ("no-regulated-data", i.no_regulated_data)
    ∷ ("no-new-secret-scope", i.no_new_secret_scope)
    ∷ ("no-authority-expansion", i.no_authority_expansion)
    ∷ ("health-checks-defined", i.health_checks_defined)
    ∷ ("operation-reconciliation-enabled", i.operation_reconciliation_enabled)
    ∷ []

-- if !condition { failed = append(failed, name) }
unfoldable pub failures : List (String × Bool) → List String
failures [] = []
failures ((name, holds) ∷ rest) =
    let later = failures rest in if not holds then name ∷ later else later

unfoldable pub evaluate_gate : GateInput → GateResult
evaluate_gate i =
    let failed = sort_strings (failures (conditions i)) in
    if not (is_empty failed)
    then record {
      passed = false;
      failed = failed;
      mode = "command";
      wait_reason = "human-approval";
    }
    else record { passed = true; failed = []; mode = "auto"; wait_reason = "" }
