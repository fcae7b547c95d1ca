-- ===== src/Kernel/Select.antt =====
-- internal/kernel/executor_select.go: which executor runs a task. Every rejection is classified as a
-- policy violation. The policy is read for its executor allowlist only.
pub mod Candidates
pub mod Chosen
pub mod Routed
use the_foundry.Prelude.{
  Bool, true, false, not, ◌&&◌, ◌||◌, String, Option, none, some, List, [], ◌∷◌, ◌==◌, is_empty,
  any, contains, lookup, if◌then◌else◌,
}
use the_foundry.Plan.{Task}
use the_foundry.Capability.{Capability, availability_supported, Registry, eligible, find_provider}
use the_foundry.Capability.Health.{HealthSnapshot, available}

pub record Selector : Type 0 where
  pub default : String
  pub routing : List (String × List String)
  pub profile : String

pub data Reason : Type 0 where
  not_in_allowlist unknown_executor unsupported_executor no_executor_configured unrouted_class
        no_eligible_executor :
      Reason

-- The executor that runs, or the one that is rejected ("" where there is none) with the reason.
pub data Selection : Type 0 where
  chosen : String → Selection
  rejected : String → Reason → Selection

unfoldable pub check_record : String → Option Capability → Selection
check_record name none = rejected name unknown_executor
check_record name (some rec) =
    if not (rec.availability == availability_supported)
    then rejected name unsupported_executor
    else chosen name

unfoldable pub validate : String → List String → Registry → Selection
unfolding check_record
validate name allow reg =
    if not (contains allow name)
    then rejected name not_in_allowlist
    else check_record name (find_provider name reg)

-- The loop over the preferences of a class, and the one over the eligible records.
unfoldable pub route : List String → List String → Registry → Selection
route [] allow candidates = rejected "" no_eligible_executor
route (name ∷ prefs) allow candidates =
    let rest = route prefs allow candidates in
    if not (contains allow name)
    then rest
    else if any (λ rec. rec.provider == name) candidates
    then chosen name
    else rest

unfoldable pub route_prefs : Option (List String) → String → List String → Registry → Selection
route_prefs none profile allow reg = rejected "" unrouted_class
route_prefs (some prefs) profile allow reg =
    if is_empty prefs
    then rejected "" unrouted_class
    else route prefs allow (eligible profile [] reg)

unfoldable pub route_classed : Selector → String → List String → Registry → Selection
unfolding route_prefs
route_classed s class allow reg = route_prefs (lookup class s.routing) s.profile allow reg

unfoldable pub select : Selector → Task → List String → Registry → Selection
select s task allow reg =
    if not (task.executor == "")
    then validate task.executor allow reg
    else if not (is_empty s.routing) && not (task.class == "")
    then route_classed s task.class allow reg
    else if s.default == ""
    then rejected "" no_executor_configured
    else validate s.default allow reg

abbrev pub is_chosen : Selection → Bool
is_chosen (chosen name) = true
is_chosen (rejected name reason) = false

-- The ordered preferences, or the reason why there are none.
pub data Preferences : Type 0 where
  preferred : List String → Preferences
  refused : Reason → Preferences

unfoldable pub routed : Option (List String) → Preferences
routed none = refused unrouted_class
routed (some prefs) = if is_empty prefs then refused unrouted_class else preferred prefs

unfoldable pub preferences : Selector → Task → Preferences
unfolding routed
preferences s task =
    if not (task.executor == "")
    then preferred (task.executor ∷ [])
    else if not (is_empty s.routing) && not (task.class == "")
    then routed (lookup task.class s.routing)
    else if not (s.default == "")
    then preferred (s.default ∷ [])
    else refused no_executor_configured

-- The loop over the preferences: the candidates and the skipped ones.
unfoldable pub sort_out :
    List String → List String → Registry → HealthSnapshot → List String × List String
sort_out [] allow reg health = ([], [])
sort_out (name ∷ prefs) allow reg health =
    let rest = sort_out prefs allow reg health in
    if not (is_chosen (validate name allow reg))
    then rest
    else if not (available health name)
    then (rest.0, name ∷ rest.1)
    else (name ∷ rest.0, rest.1)

-- The candidates, or the reason, each with the skipped ones.
pub data Fallback : Type 0 where
  candidates : List String → List String → Fallback
  exhausted : Reason → List String → Fallback

unfoldable pub fall_over : Preferences → List String → Registry → HealthSnapshot → Fallback
fall_over (refused reason) allow reg health = exhausted reason []
fall_over (preferred prefs) allow reg health =
    let (kept, skipped) = sort_out prefs allow reg health in
    if is_empty kept then exhausted no_eligible_executor skipped else candidates kept skipped

unfoldable pub select_candidates :
    Selector → Task → List String → Registry → HealthSnapshot → Fallback
unfolding fall_over
select_candidates s task allow reg health = fall_over (preferences s task) allow reg health
