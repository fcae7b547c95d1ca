-- ===== src/Scenarios/Deployments.antt =====
-- The deployment gate and the quotas at concrete inputs.
use the_foundry.Prelude.{
  ◌≡◌, ◌≢◌, ◌↔◌, inr, true, false, not, ◌&&◌, ◌||◌, ◌==◌, String, none, some, List, [], ◌∷◌, arith,
  any, lookup, lookup_or,
}
use the_foundry.State.Registry.{waiting}
use the_foundry.Recovery.Liveness.{Config, WorkflowSnapshot}
use the_foundry.Deploy.Gate.{GateInput, evaluate_gate}
use the_foundry.Deploy.Gate.Exact.{gate_exact}
use the_foundry.Deploy.Quota.{ProfileQuota, Usage, unused, plus, acquire}
use the_foundry.Deploy.Quota.Within.{Fits, IsWithin, acquire-IsWithin}

-- Everything holds but the rehearsal of a rollback.
abbrev unrehearsed : GateInput
unrehearsed = record {
  personal_profile = true;
  deployment_target_allowlisted = true;
  mission_readiness_complete = true;
  spend_within_envelope = true;
  deterministic_verification_passed = true;
  synthetic_or_real_canary_passed = true;
  rollback_rehearsed = false;
  database_changes_reversible_or_backward_compatible = true;
  no_regulated_data = true;
  no_new_secret_scope = true;
  no_authority_expansion = true;
  health_checks_defined = true;
  operation_reconciliation_enabled = true;
}

gate_exact_example :
    (((evaluate_gate unrehearsed).passed ≡ true) ↔ (
      (unrehearsed.personal_profile ≡ true)
      × (unrehearsed.deployment_target_allowlisted ≡ true)
      × (unrehearsed.mission_readiness_complete ≡ true)
      × (unrehearsed.spend_within_envelope ≡ true)
      × (unrehearsed.deterministic_verification_passed ≡ true)
      × (unrehearsed.synthetic_or_real_canary_passed ≡ true)
      × (unrehearsed.rollback_rehearsed ≡ true)
      × (unrehearsed.database_changes_reversible_or_backward_compatible ≡ true)
      × (unrehearsed.no_regulated_data ≡ true)
      × (unrehearsed.no_new_secret_scope ≡ true)
      × (unrehearsed.no_authority_expansion ≡ true)
      × (unrehearsed.health_checks_defined ≡ true)
      × (unrehearsed.operation_reconciliation_enabled ≡ true)))
    × ((name : String)
        → any (λ f. f == name) (evaluate_gate unrehearsed).failed ≡ (
            ("personal-profile" == name && not unrehearsed.personal_profile)
            || ("deployment-target-allowlisted" == name
                && not unrehearsed.deployment_target_allowlisted)
            || ("mission-readiness-complete" == name && not unrehearsed.mission_readiness_complete)
            || ("spend-within-envelope" == name && not unrehearsed.spend_within_envelope)
            || ("deterministic-verification-passed" == name
                && not unrehearsed.deterministic_verification_passed)
            || ("synthetic-or-real-canary-passed" == name
                && not unrehearsed.synthetic_or_real_canary_passed)
            || ("rollback-rehearsed" == name && not unrehearsed.rollback_rehearsed)
            || ("database-changes-reversible-or-backward-compatible" == name
                && not unrehearsed.database_changes_reversible_or_backward_compatible)
            || ("no-regulated-data" == name && not unrehearsed.no_regulated_data)
            || ("no-new-secret-scope" == name && not unrehearsed.no_new_secret_scope)
            || ("no-authority-expansion" == name && not unrehearsed.no_authority_expansion)
            || ("health-checks-defined" == name && not unrehearsed.health_checks_defined)
            || ("operation-reconciliation-enabled" == name
                && not unrehearsed.operation_reconciliation_enabled)))
gate_exact_example = gate_exact unrehearsed

abbrev parked : WorkflowSnapshot
parked = record {
  workflow_id = "mission-1";
  status = waiting;
  reason = (evaluate_gate unrehearsed).wait_reason;
  wake_at = none;
  attempt = 1;
  last_heartbeat = 0;
  last_progress_at = 0;
  recent_failures = [];
}

abbrev defaults : Config
defaults = record { stale_after = 0; no_progress_after = 0; retry_budget = 0 }

abbrev quotas : List (String × ProfileQuota)
quotas =
    (
      "personal",
      record { max_workflows = 2; max_runners = 0; max_admissions = 5; max_active_missions = 1 },
    )
    ∷ []

abbrev one : Usage
one = record { workflows = 1; runners = 1; admissions = 0; missions = 1 }

acquire-IsWithin_example :
    let (answer, after) = acquire quotas "personal" one [] in
    ((answer ≡ none) ↔ (
      (quota : ProfileQuota) × (lookup "personal" quotas ≡ some quota)
      × Fits quota (plus (lookup_or unused "personal" []) one)))
    × (answer ≢ none → after ≡ [])
    × (IsWithin quotas [] → IsWithin quotas after)
acquire-IsWithin_example = acquire-IsWithin quotas "personal" one []

nothing_used : IsWithin quotas []
unfolding lookup lookup_or
nothing_used profile quota found = record {
  workflows = inr (omega arith);
  runners = inr (omega arith);
  admissions = inr (omega arith);
  missions = inr (omega arith);
}
