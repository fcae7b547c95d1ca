-- ===== src/Scenarios/Policies.antt =====
-- The policy compiler on a platform with two environments.
use the_foundry.Prelude.{
  ◌≡◌, ◌↔◌, refl, true, false, String, Option, none, some, List, [], ◌∷◌, lookup, insert,
  sort_strings,
}
use the_foundry.Policy.{
  org, Mode, auto, command, disabled, Policy, LayerPolicy, Override, permissions, modes, budgets,
  sandbox, executors, names, mode_at, ceiling_at, flag, widened, valid, mode_rank, same_mode,
}
use the_foundry.Policy.Results.{ok}
use the_foundry.Policy.Merge
use the_foundry.Policy.Compile
use the_foundry.Policy.Stricter.{IsStricter, mode_rules-IsLawful}
use the_foundry.Policy.Compiled.{compile-IsStricter}
use the_foundry.Policy.Overlay.{overlay, merge_map-overlay}
use the_foundry.Policy.Merging.{IsMergeable}

abbrev untouched : LayerPolicy
untouched = record {
  permissions_allowlist = none;
  deployment_modes = [];
  budget_ceilings_usd = [];
  executor_allowlist = none;
  validation_allowlist_ref = none;
  notification_classes = none;
  risk_tier_controls = [];
  require_sandbox = none;
}

abbrev house : LayerPolicy
house = record {
  permissions_allowlist = some ("read" ∷ "write" ∷ []);
  deployment_modes = ("prod", command) ∷ ("dev", auto) ∷ [];
  budget_ceilings_usd = ("workflow_usd", 50) ∷ [];
  executor_allowlist = some ("codex" ∷ []);
  validation_allowlist_ref = some "v1";
  notification_classes = some ("alert" ∷ []);
  risk_tier_controls = ("A0", record { auto_allowed = true; require_review = false }) ∷ [];
  require_sandbox = some false;
}

-- An organisation that allows reading only, halves the ceiling and asks for the sandbox.
abbrev careful : LayerPolicy
careful = record untouched {
  permissions_allowlist = some ("read" ∷ []);
  deployment_modes = ("prod", disabled) ∷ [];
  budget_ceilings_usd = ("workflow_usd", 25) ∷ [];
  require_sandbox = some true;
}

abbrev digest : Policy → Option String
digest p = some "sha256"

abbrev the_policy : Policy
the_policy = record {
  permissions_allowlist = "read" ∷ [];
  deployment_modes = ("prod", disabled) ∷ ("dev", auto) ∷ [];
  budget_ceilings_usd = ("workflow_usd", 25) ∷ [];
  executor_allowlist = "codex" ∷ [];
  validation_allowlist_ref = "v1";
  notification_classes = "alert" ∷ [];
  risk_tier_controls = ("A0", record { auto_allowed = true; require_review = false }) ∷ [];
  require_sandbox = true;
}

abbrev the_overrides : List Override
the_overrides =
    Merge.override org permissions (names ("read" ∷ "write" ∷ [])) (names ("read" ∷ []))
    ∷ Merge.override org modes (mode_at "prod" command) (mode_at "prod" disabled)
    ∷ Merge.override org budgets (ceiling_at "workflow_usd" 50) (ceiling_at "workflow_usd" 25)
    ∷ Merge.override org sandbox (flag false) (flag true)
    ∷ []

abbrev the_result : Compile.Resolved
the_result = record { effective = the_policy; overrides = the_overrides; digest = "sha256" }

compiles : Compile.compile digest house careful untouched untouched ≡ Compile.resolved the_result
unfolding Compile.compile Compile.platform_effective Compile.fold_layers Compile.finish
    Compile.sealed Compile.required Compile.filled Compile.named Compile.check_modes
    Compile.apply_layer Compile.apply_permissions Compile.apply_executors
    Compile.apply_notifications Compile.apply_modes Compile.apply_budgets Compile.apply_risk_tiers
    Compile.apply_reference Compile.apply_sandbox Merge.merge_string_set Merge.merge_map
    Merge.merge_keys Merge.merge_key Merge.merge_value Merge.merge_require_sandbox
    Merge.merge_fixed_string Merge.sorted_map_keys Merge.added_to Merge.equal_strings
    Merge.mode_rules Merge.budget_rules Merge.risk_rules valid mode_rank same_mode insert lookup
    sort_strings
compiles = refl

-- A layer that asks for an executor the platform does not allow is refused.
refused :
    Compile.compile digest house
      (record untouched { executor_allowlist = some ("claude" ∷ "codex" ∷ []) })
      untouched
      untouched
    ≡ Compile.rejected (Merge.failure org executors (widened ("claude" ∷ [])))
unfolding Compile.compile Compile.platform_effective Compile.fold_layers Compile.finish
    Compile.required Compile.filled Compile.named Compile.check_modes Compile.apply_layer
    Compile.apply_permissions Compile.apply_executors Merge.merge_string_set Merge.added_to valid
    sort_strings
refused = refl

compile-IsStricter_example :
    (ceiling : Policy) × (Compile.platform_effective house ≡ ok ceiling)
    × IsStricter ceiling the_policy
    × (the_overrides ≡ [] → the_policy ≡ ceiling)
    × (digest the_policy ≡ some "sha256")
compile-IsStricter_example =
    compile-IsStricter digest house careful untouched untouched the_result compiles

merge_map-overlay_example :
    (IsMergeable Merge.mode_rules house.deployment_modes careful.deployment_modes ↔ (
      (r : List (String × Mode) × List Override) × (Merge.merge_map Merge.mode_rules org
          house.deployment_modes careful.deployment_modes []
        ≡ ok r)))
    × ((r : List (String × Mode) × List Override)
        → Merge.merge_map Merge.mode_rules org house.deployment_modes careful.deployment_modes []
          ≡ ok r
        → (key : String)
        → lookup key r.0
          ≡ overlay (lookup key careful.deployment_modes) (lookup key house.deployment_modes))
merge_map-overlay_example =
    merge_map-overlay Merge.mode_rules org mode_rules-IsLawful house.deployment_modes
      careful.deployment_modes []
