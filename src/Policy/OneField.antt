-- ===== src/Policy/OneField.antt =====
-- A policy with one field at least as strict is at least as strict.
use the_foundry.Prelude.{ℕ, refl, Bool, String, List}
use the_foundry.Policy.{Mode, RiskTierControl, Policy}
use the_foundry.Policy.Merge.{mode_rules, budget_rules, risk_rules}
use the_foundry.Policy.Stricter.{
  IsWithinSet, IsWithinMap, IsWithinFlag, IsModeKept, IsCeilingKept, IsControlKept, IsStricter,
  IsWithinMap-refl, mode_rules-IsOrder, budget_rules-IsOrder, risk_rules-IsOrder,
}

module _ (p : Policy) where
  pub with_permissions-IsStricter :
      (a : List String)
      → IsWithinSet p.permissions_allowlist a
      → IsStricter p (record p { permissions_allowlist = a })
  with_permissions-IsStricter a w = record {
    permissions = w;
    executors = λ v e. e;
    notifications = λ v e. e;
    modes = IsWithinMap-refl mode_rules IsModeKept mode_rules-IsOrder p.deployment_modes;
    budgets =
        IsWithinMap-refl budget_rules IsCeilingKept budget_rules-IsOrder p.budget_ceilings_usd;
    risk_tiers = IsWithinMap-refl risk_rules IsControlKept risk_rules-IsOrder p.risk_tier_controls;
    reference = refl;
    sandbox = λ e. e;
  }

  pub with_executors-IsStricter :
      (a : List String)
      → IsWithinSet p.executor_allowlist a
      → IsStricter p (record p { executor_allowlist = a })
  with_executors-IsStricter a w = record {
    permissions = λ v e. e;
    executors = w;
    notifications = λ v e. e;
    modes = IsWithinMap-refl mode_rules IsModeKept mode_rules-IsOrder p.deployment_modes;
    budgets =
        IsWithinMap-refl budget_rules IsCeilingKept budget_rules-IsOrder p.budget_ceilings_usd;
    risk_tiers = IsWithinMap-refl risk_rules IsControlKept risk_rules-IsOrder p.risk_tier_controls;
    reference = refl;
    sandbox = λ e. e;
  }

  pub with_notifications-IsStricter :
      (a : List String)
      → IsWithinSet p.notification_classes a
      → IsStricter p (record p { notification_classes = a })
  with_notifications-IsStricter a w = record {
    permissions = λ v e. e;
    executors = λ v e. e;
    notifications = w;
    modes = IsWithinMap-refl mode_rules IsModeKept mode_rules-IsOrder p.deployment_modes;
    budgets =
        IsWithinMap-refl budget_rules IsCeilingKept budget_rules-IsOrder p.budget_ceilings_usd;
    risk_tiers = IsWithinMap-refl risk_rules IsControlKept risk_rules-IsOrder p.risk_tier_controls;
    reference = refl;
    sandbox = λ e. e;
  }

  pub with_modes-IsStricter :
      (a : List (String × Mode))
      → IsWithinMap IsModeKept p.deployment_modes a
      → IsStricter p (record p { deployment_modes = a })
  with_modes-IsStricter a w = record {
    permissions = λ v e. e;
    executors = λ v e. e;
    notifications = λ v e. e;
    modes = w;
    budgets =
        IsWithinMap-refl budget_rules IsCeilingKept budget_rules-IsOrder p.budget_ceilings_usd;
    risk_tiers = IsWithinMap-refl risk_rules IsControlKept risk_rules-IsOrder p.risk_tier_controls;
    reference = refl;
    sandbox = λ e. e;
  }

  pub with_budgets-IsStricter :
      (a : List (String × ℕ))
      → IsWithinMap IsCeilingKept p.budget_ceilings_usd a
      → IsStricter p (record p { budget_ceilings_usd = a })
  with_budgets-IsStricter a w = record {
    permissions = λ v e. e;
    executors = λ v e. e;
    notifications = λ v e. e;
    modes = IsWithinMap-refl mode_rules IsModeKept mode_rules-IsOrder p.deployment_modes;
    budgets = w;
    risk_tiers = IsWithinMap-refl risk_rules IsControlKept risk_rules-IsOrder p.risk_tier_controls;
    reference = refl;
    sandbox = λ e. e;
  }

  pub with_risk_tiers-IsStricter :
      (a : List (String × RiskTierControl))
      → IsWithinMap IsControlKept p.risk_tier_controls a
      → IsStricter p (record p { risk_tier_controls = a })
  with_risk_tiers-IsStricter a w = record {
    permissions = λ v e. e;
    executors = λ v e. e;
    notifications = λ v e. e;
    modes = IsWithinMap-refl mode_rules IsModeKept mode_rules-IsOrder p.deployment_modes;
    budgets =
        IsWithinMap-refl budget_rules IsCeilingKept budget_rules-IsOrder p.budget_ceilings_usd;
    risk_tiers = w;
    reference = refl;
    sandbox = λ e. e;
  }

  pub with_sandbox-IsStricter :
      (a : Bool)
      → IsWithinFlag p.require_sandbox a
      → IsStricter p (record p { require_sandbox = a })
  with_sandbox-IsStricter a w = record {
    permissions = λ v e. e;
    executors = λ v e. e;
    notifications = λ v e. e;
    modes = IsWithinMap-refl mode_rules IsModeKept mode_rules-IsOrder p.deployment_modes;
    budgets =
        IsWithinMap-refl budget_rules IsCeilingKept budget_rules-IsOrder p.budget_ceilings_usd;
    risk_tiers = IsWithinMap-refl risk_rules IsControlKept risk_rules-IsOrder p.risk_tier_controls;
    reference = refl;
    sandbox = w;
  }
