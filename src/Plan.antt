-- ===== src/Plan.antt =====
-- internal/plan: the parsed plan document and its cross-field validation (schema.go, effects.go).
-- `strings.TrimSpace` is a parameter. The front-matter fields that no modelled code reads (title,
-- repos, goal, budget, requested permissions, body sections) are left out.
pub mod Checked
use the_foundry.Prelude.{
  ℕ, suc, Bool, true, false, not, ◌||◌, String, Option, none, some, List, [], ◌∷◌, ◌==◌, is_empty,
  contains, if◌then◌else◌,
}

abbrev pub EffectKind : Type 0
EffectKind = String

pub record Effect : Type 0 where
  pub kind : EffectKind
  pub target : String

abbrev pub valid_effect_kinds : List EffectKind
valid_effect_kinds =
    "docs" ∷ "code" ∷ "dependency" ∷ "migration" ∷ "billing" ∷ "secret" ∷ "network" ∷ "deploy"
    ∷ "permission" ∷ "destructive" ∷ []

unfoldable pub valid : EffectKind → Bool
valid k = contains valid_effect_kinds k

pub record Task : Type 0 where
  pub id : String
  pub depends_on : List String
  pub commands : List String
  pub validation_commands : List String
  pub files : List String
  pub validation_optout : Bool
  pub validation_optout_reason : String
  pub executor : String
  pub class : String

pub record Document : Type 0 where
  pub id : String
  pub version : String
  pub tasks : List Task
  pub declared_effects : List Effect
  pub declared_tier : String
  pub self_classified : Bool

pub data Error : Type 0 where
  missing_id missing_version no_tasks missing_task_id : Error
  duplicate_task no_validation no_optout_reason : String → Error
  unknown_dependency : String → String → Error
  unknown_effect_kind : ℕ → EffectKind → Error

-- `none` is the source's nil error; the first error stops a loop.
unfoldable pub first_error : Option Error → Option Error → Option Error
first_error none next = next
first_error (some e) next = some e

-- The inner loop over `DependsOn`, with the task ids that the first loop gathered.
unfoldable pub check_depends : List String → String → List String → Option Error
check_depends ids task [] = none
check_depends ids task (dep ∷ deps) =
    if not (contains ids dep)
    then some (unknown_dependency task dep)
    else check_depends ids task deps

unfoldable pub check_references : List String → List Task → Option Error
check_references ids [] = none
check_references ids (t ∷ ts) =
    first_error (check_depends ids t.id t.depends_on) (check_references ids ts)

unfoldable pub check_effects : ℕ → List Effect → Option Error
check_effects i [] = none
check_effects i (e ∷ es) =
    if not (valid e.kind) then some (unknown_effect_kind i e.kind) else check_effects (suc i) es

abbrev pub task_ids : List Task → List String
task_ids [] = []
task_ids (t ∷ ts) = t.id ∷ task_ids ts

module _ (trim_space : String → String) where
  unfoldable pub check_validation : Task → Option Error
  check_validation t =
      if is_empty t.validation_commands
      then (if not t.validation_optout
          then some (no_validation t.id)
          else if trim_space t.validation_optout_reason == ""
          then some (no_optout_reason t.id)
          else none)
      else none

  -- The first loop; `ids` holds the ids of the tasks before.
  unfoldable pub check_tasks : List String → List Task → Option Error
  check_tasks ids [] = none
  check_tasks ids (t ∷ ts) =
      if t.id == ""
      then some missing_task_id
      else if contains ids t.id
      then some (duplicate_task t.id)
      else first_error (check_validation t) (check_tasks (t.id ∷ ids) ts)

  unfoldable pub validate : Document → Option Error
  validate d =
      if d.id == ""
      then some missing_id
      else if d.version == ""
      then some missing_version
      else if is_empty d.tasks
      then some no_tasks
      else first_error (check_tasks [] d.tasks) (
          first_error (check_references (task_ids d.tasks) d.tasks)
            (check_effects 0 d.declared_effects))

  -- What a successful `validate` writes to the document.
  unfoldable pub classified : Document → Document
  classified d = record d { self_classified = not (d.declared_tier == "") || d.self_classified }
