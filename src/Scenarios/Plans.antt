-- ===== src/Scenarios/Plans.antt =====
-- Plans of internal/plan and their admission by internal/admission at concrete inputs.
use the_foundry.Prelude.{◌<◌, ◌≡◌, ◌⊎◌, refl, false, String, some, List, [], ◌∷◌}
use the_foundry.Plan.{
  Effect, Task, Document, validate, valid, check_tasks, check_validation, check_references,
  check_depends, check_effects, first_error,
}
use the_foundry.Plan.Checked.{IsWellFormed, validate-IsWellFormed}
use the_foundry.Admission.{
  a0, a1, h, rank, Rule, PolicyView, Decision, rules_v1, base_tier, is_grave, kind_in, effect_key,
  decide, classify,
}
use the_foundry.Admission.Floors.{effects, decision}
use the_foundry.Admission.Discrepancy.{hidden_grave_needs_human, hidden_raises}
use the_foundry.Admission.Detect.{
  from_document, destroys, destroys_file, is_lockfile, bills, permits, deploys_file, holds_secret,
}
use the_foundry.Admission.Gate.{irreversible_plan_h}

-- Stand-ins: texts that are in lower case and trimmed already, and commands that name no host.
abbrev same : String → String
same s = s

abbrev no_hosts : String → List String
no_hosts cmd = []

abbrev docs_effect : Effect
docs_effect = record { kind = "docs"; target = "README.md" }

abbrev cleanup : Task
cleanup = record {
  id = "T1";
  depends_on = [];
  commands = "psql -c 'drop table users'" ∷ [];
  validation_commands = "go test ./..." ∷ [];
  files = "README.md" ∷ [];
  validation_optout = false;
  validation_optout_reason = "";
  executor = "";
  class = "";
}

abbrev plan : Document
plan = record {
  id = "P1";
  version = "1";
  tasks = cleanup ∷ [];
  declared_effects = docs_effect ∷ [];
  declared_tier = "A0";
  self_classified = false;
}

abbrev view : PolicyView
view = record { digest = "d"; required_controls = λ t. [] }

validate-IsWellFormed_example : IsWellFormed same plan
unfolding validate valid check_tasks check_validation check_references check_depends check_effects
    first_error
validate-IsWellFormed_example = (validate-IsWellFormed same plan).0 refl

-- A detector that reports what it is given.
abbrev finds : List Effect → Document → List Effect
finds es doc = es

abbrev secret_effect : Effect
secret_effect = record { kind = "secret"; target = ".env" }

abbrev network_effect : Effect
network_effect = record { kind = "network"; target = "example.com" }

abbrev network_rule : Rule
network_rule = record {
  id = "dependency-migration-network-secret-deploy";
  tier_floor = a1;
  fits = kind_in ("dependency" ∷ "migration" ∷ "network" ∷ "secret" ∷ "deploy" ∷ []);
}

hidden_grave_needs_human_example : (decision same (finds (secret_effect ∷ [])) view plan).tier ≡ h
unfolding is_grave effect_key
hidden_grave_needs_human_example =
    hidden_grave_needs_human same (finds (secret_effect ∷ [])) view plan refl

hidden_raises_example :
    (rank (base_tier (rules_v1 same) (effects same (finds (network_effect ∷ [])) view plan) a0)
      < rank (decision same (finds (network_effect ∷ [])) view plan).tier)
    ⊎ ((decision same (finds (network_effect ∷ [])) view plan).tier ≡ h)
unfolding effect_key
hidden_raises_example = hidden_raises same (finds (network_effect ∷ [])) view plan refl

abbrev verdict : Decision
verdict = decide same (from_document same no_hosts) view plan

irreversible_plan_h_example : verdict.tier ≡ h
unfolding classify destroys destroys_file is_lockfile bills permits deploys_file holds_secret
irreversible_plan_h_example = irreversible_plan_h same no_hosts plan (some view) verdict refl refl
