-- ===== src/Scenarios/Executors.antt =====
-- The choice of executors and the circuit breaker at concrete inputs.
use the_foundry.Prelude.{
  ◌+◌, ◌≡◌, ◌≢◌, ◌⊎◌, ◌||◌, refl, true, false, String, none, List, [], ◌∷◌, All, any, contains,
  is_empty, lookup, sort_by, ltb, leb,
}
use the_foundry.Plan.{Task}
use the_foundry.Capability.{
  Capability, is_eligible, select_eligible, eligible, has_all, find_provider,
}
use the_foundry.Capability.Health.{
  Tracker, threshold, cooldown_time, HealthSnapshot, available, available_in, record_success,
  record_failure,
}
use the_foundry.Capability.Health.Breaker.{record_failures, lets, breaker_opens}
use the_foundry.Kernel.Select.{
  Selector, chosen, rejected, no_eligible_executor, check_record, validate, route, route_prefs,
  route_classed, select, preferences, routed, sort_out, candidates, fall_over, select_candidates,
}
use the_foundry.Kernel.Select.Chosen.{is_supported, select_allowed}
use the_foundry.Kernel.Select.Routed.{IsRouted, select_source}
use the_foundry.Kernel.Select.Candidates.{IsCandidate, candidates_allowed}

abbrev tracker : Tracker
tracker = record { trip_until = []; failures = []; trips = []; failure_threshold = 0; cooldown = 0 }

breaker_opens_example :
    lets "codex" 70 (
      record_failure "codex" 3
        (record_failures "codex" (1 ∷ 2 ∷ []) (record_success "codex" tracker)))
    ≡ (ltb 3 (threshold tracker) || leb (3 + cooldown_time tracker) 70)
breaker_opens_example = breaker_opens "codex" (1 ∷ 2 ∷ []) 3 70 tracker

abbrev task : Task
task = record {
  id = "T1";
  depends_on = [];
  commands = [];
  validation_commands = [];
  files = [];
  validation_optout = false;
  validation_optout_reason = "";
  executor = "";
  class = "frontend";
}

abbrev cursor : Capability
cursor = record {
  provider = "cursor";
  features = [];
  availability = "supported";
  profile_allow = [];
  profile_deny = "strict" ∷ [];
  sandbox_eligibility = "host_only";
}

abbrev allow : List String
allow = "cursor" ∷ []

abbrev name : String
name = "cursor"

abbrev selector : String → Selector
selector profile = record {
  default = "";
  routing = ("frontend", "codex" ∷ "cursor" ∷ []) ∷ [];
  profile = profile;
}

chosen_cursor : select (selector "open") task allow (cursor ∷ []) ≡ chosen "cursor"
unfolding select route_classed route_prefs route lookup eligible select_eligible is_eligible has_all
    sort_by
chosen_cursor = refl

select_allowed_example :
    (contains allow "cursor" ≡ true) × (any (is_supported "cursor") (cursor ∷ []) ≡ true)
select_allowed_example =
    select_allowed (selector "open") task allow (cursor ∷ []) "cursor" chosen_cursor

select_source_example :
    ((task.executor ≢ "") × (name ≡ task.executor))
    ⊎ ((task.executor ≡ "")
        × (task.class ≢ "")
        × IsRouted (selector "open") task.class allow (cursor ∷ []) "cursor")
    ⊎ ((task.executor ≡ "")
        × (((selector "open").routing ≡ []) ⊎ (task.class ≡ ""))
        × (name ≡ (selector "open").default))
select_source_example =
    select_source (selector "open") task allow (cursor ∷ []) "cursor" chosen_cursor

abbrev unwatched : HealthSnapshot
unwatched = record { at = 0; trip_until = none }

-- The profile "strict", which the record denies: Select refuses, and SelectCandidates offers it.
denied_refused :
    select (selector "strict") task allow (cursor ∷ []) ≡ rejected "" no_eligible_executor
unfolding select route_classed route_prefs route lookup eligible select_eligible is_eligible has_all
    sort_by
denied_refused = refl

denied_offered :
    select_candidates (selector "strict") task allow (cursor ∷ []) unwatched ≡ candidates allow []
unfolding select_candidates preferences routed lookup fall_over sort_out validate check_record
    find_provider available available_in
denied_offered = refl

candidates_allowed_example :
    (is_empty allow ≡ false)
    × All (IsCandidate allow (cursor ∷ []) unwatched true) allow
    × All (IsCandidate allow (cursor ∷ []) unwatched false) []
candidates_allowed_example =
    candidates_allowed (selector "strict") task allow (cursor ∷ []) unwatched allow []
      denied_offered
