-- ===== src/Scenarios/Waves.antt =====
-- Waves of internal/pec/waves.go for a document of three tasks.
use the_foundry.Prelude.{◌≡◌, refl, true, false, String, List, [], ◌∷◌, contains, sort_strings}
use the_foundry.Plan.{Task, task_ids}
use the_foundry.Pec.Waves.{
  first_unknown, or_unknown, unknown_in, add_to_set, add_all, remove_from_set, deps_of, ready,
  remove_placed, settle, settle_all, layer, propose_known, propose_waves,
}
use the_foundry.Pec.Waves.Fuel.{ran_out, propose_waves_ends}
use the_foundry.Pec.Waves.Layered.{IsLayered}
use the_foundry.Pec.Waves.Placed.{is_placed, propose_waves-IsLayered}

abbrev task : String → List String → Task
task id deps = record {
  id = id;
  depends_on = deps;
  commands = [];
  validation_commands = [];
  files = [];
  validation_optout = false;
  validation_optout_reason = "";
  executor = "";
  class = "";
}

abbrev tasks : List Task
tasks = task "c" ("a" ∷ "b" ∷ []) ∷ task "b" [] ∷ task "a" [] ∷ []

abbrev two_waves : List (List String)
two_waves = ("a" ∷ "b" ∷ []) ∷ ("c" ∷ []) ∷ []

propose_waves_ends_example : ran_out (propose_waves tasks) ≡ false
propose_waves_ends_example = propose_waves_ends tasks

propose_waves-IsLayered_example :
    IsLayered tasks [] two_waves
    × ((id : String) → contains (task_ids tasks) id ≡ true → is_placed two_waves id ≡ true)
unfolding propose_waves propose_known unknown_in or_unknown first_unknown add_all add_to_set deps_of
    layer ready remove_placed settle_all settle remove_from_set sort_strings
propose_waves-IsLayered_example = propose_waves-IsLayered tasks two_waves refl
