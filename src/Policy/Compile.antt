-- ===== src/Policy/Compile.antt =====
-- internal/policy/compiler/compiler.go: Compile, platformEffective and applyLayer. The digest of a policy
-- is a parameter, `none` where it fails: encoding/json and crypto/sha256 compute it.
use the_foundry.Prelude.{
  ℕ, Bool, not, ◌==◌, String, Option, none, some, List, [], ◌∷◌, is_empty, sort_strings,
  if◌then◌else◌,
}
use the_foundry.Policy.{
  Layer, platform, org, profile, workflow, Mode, valid, Policy, LayerPolicy, RiskTierControl, Field,
  permissions, executors, notifications, modes, budgets, risk_tiers, validation_ref, sandbox,
  must_be_set, invalid_mode, Override, CompileError, Draft,
}
use the_foundry.Policy.Results.{Result, ok, failed, ◌>>=◌}
use the_foundry.Policy.Merge.{
  failure, merge_string_set, merge_map, mode_rules, budget_rules, risk_rules, merge_fixed_string,
  merge_require_sandbox,
}

abbrev pub missing {ℓ} : {A : Type ℓ} → Field → Result A
missing field = failed (failure platform field must_be_set)

-- A field that must not be nil, and one that must not be empty.
unfoldable pub required {ℓ} : {A : Type ℓ} → Field → Option A → Result A
required field none = missing field
required field (some a) = ok a

unfoldable pub filled {ℓ} : {A : Type ℓ} → Field → List A → Result (List A)
filled field entries = if is_empty entries then missing field else ok entries

unfoldable pub named : Field → Option String → Result String
named field none = missing field
named field (some s) = if s == "" then missing field else ok s

-- The first invalid mode; the source reports one of them, in the order that Go walks the map.
unfoldable pub check_modes : List (String × Mode) → Result (List (String × Mode))
check_modes [] = ok []
check_modes (entry ∷ later) =
    if not (valid entry.1)
    then failed (failure platform modes (invalid_mode entry.0))
    else (check_modes later >>= λ rest. ok (entry ∷ rest))

unfoldable pub platform_effective : LayerPolicy → Result Policy
platform_effective p = do
  permissions_allowlist ← required permissions p.permissions_allowlist
  deployment_modes ← filled modes p.deployment_modes
  ceilings ← filled budgets p.budget_ceilings_usd
  executor_allowlist ← required executors p.executor_allowlist
  reference ← named validation_ref p.validation_allowlist_ref
  classes ← required notifications p.notification_classes
  controls ← filled risk_tiers p.risk_tier_controls
  sandboxed ← required sandbox p.require_sandbox
  checked ← check_modes deployment_modes
  ok (record {
    permissions_allowlist = sort_strings permissions_allowlist;
    deployment_modes = checked;
    budget_ceilings_usd = ceilings;
    executor_allowlist = sort_strings executor_allowlist;
    validation_allowlist_ref = reference;
    notification_classes = sort_strings classes;
    risk_tier_controls = controls;
    require_sandbox = sandboxed;
  })

-- The parts of applyLayer, in its order. A field that the layer does not set is left as it is.
unfoldable pub apply_permissions : Layer → Option (List String) → Draft → Result Draft
apply_permissions layer none d = ok d
apply_permissions layer (some next) d =
    merge_string_set permissions layer d.effective.permissions_allowlist next d.overrides >>= λ m.
    ok (record { effective = record d.effective { permissions_allowlist = m.0 }; overrides = m.1 })

unfoldable pub apply_executors : Layer → Option (List String) → Draft → Result Draft
apply_executors layer none d = ok d
apply_executors layer (some next) d =
    merge_string_set executors layer d.effective.executor_allowlist next d.overrides >>= λ m.
    ok (record { effective = record d.effective { executor_allowlist = m.0 }; overrides = m.1 })

unfoldable pub apply_notifications : Layer → Option (List String) → Draft → Result Draft
apply_notifications layer none d = ok d
apply_notifications layer (some next) d =
    merge_string_set notifications layer d.effective.notification_classes next d.overrides >>= λ m.
    ok (record { effective = record d.effective { notification_classes = m.0 }; overrides = m.1 })

-- A layer's empty map merges to the map it meets: the tests on its length change nothing.
unfoldable pub apply_modes : Layer → List (String × Mode) → Draft → Result Draft
apply_modes layer next d =
    merge_map mode_rules layer d.effective.deployment_modes next d.overrides >>= λ m.
    ok (record { effective = record d.effective { deployment_modes = m.0 }; overrides = m.1 })

unfoldable pub apply_budgets : Layer → List (String × ℕ) → Draft → Result Draft
apply_budgets layer next d =
    merge_map budget_rules layer d.effective.budget_ceilings_usd next d.overrides >>= λ m.
    ok (record { effective = record d.effective { budget_ceilings_usd = m.0 }; overrides = m.1 })

unfoldable pub apply_risk_tiers : Layer → List (String × RiskTierControl) → Draft → Result Draft
apply_risk_tiers layer next d =
    merge_map risk_rules layer d.effective.risk_tier_controls next d.overrides >>= λ m.
    ok (record { effective = record d.effective { risk_tier_controls = m.0 }; overrides = m.1 })

unfoldable pub apply_reference : Layer → Option String → Draft → Result Draft
apply_reference layer none d = ok d
apply_reference layer (some next) d =
    merge_fixed_string layer d.effective.validation_allowlist_ref next d.overrides >>= λ overrides.
    ok (record d { overrides = overrides })

unfoldable pub apply_sandbox : Layer → Option Bool → Draft → Result Draft
apply_sandbox layer none d = ok d
apply_sandbox layer (some next) d =
    merge_require_sandbox layer d.effective.require_sandbox next d.overrides >>= λ m.
    ok (record { effective = record d.effective { require_sandbox = m.0 }; overrides = m.1 })

unfoldable pub apply_layer : Layer → LayerPolicy → Draft → Result Draft
apply_layer layer next start = do
  a ← apply_permissions layer next.permissions_allowlist start
  b ← apply_executors layer next.executor_allowlist a
  c ← apply_notifications layer next.notification_classes b
  d ← apply_modes layer next.deployment_modes c
  e ← apply_budgets layer next.budget_ceilings_usd d
  f ← apply_risk_tiers layer next.risk_tier_controls e
  g ← apply_reference layer next.validation_allowlist_ref f
  apply_sandbox layer next.require_sandbox g

unfoldable pub fold_layers : LayerPolicy → LayerPolicy → LayerPolicy → Policy → Result Draft
fold_layers org_layer profile_layer workflow_layer effective = do
  a ← apply_layer org org_layer (record { effective = effective; overrides = [] })
  b ← apply_layer profile profile_layer a
  apply_layer workflow workflow_layer b

pub record Resolved : Type 0 where
  pub effective : Policy
  pub overrides : List Override
  pub digest : String

-- What Compile returns: the error of a layer, or that of the digest.
pub data Outcome : Type 0 where
  resolved : Resolved → Outcome
  rejected : CompileError → Outcome
  no_digest : Outcome

unfoldable pub sealed : Draft → Option String → Outcome
sealed d none = no_digest
sealed d (some digest) =
    resolved (record { effective = d.effective; overrides = d.overrides; digest = digest })

unfoldable pub finish : (Policy → Option String) → Result Draft → Outcome
finish digest_of (failed e) = rejected e
finish digest_of (ok d) = sealed d (digest_of d.effective)

unfoldable pub compile :
    (Policy → Option String) → LayerPolicy → LayerPolicy → LayerPolicy → LayerPolicy → Outcome
compile digest_of platform_layer org_layer profile_layer workflow_layer =
    finish digest_of
      (platform_effective platform_layer >>= fold_layers org_layer profile_layer workflow_layer)
