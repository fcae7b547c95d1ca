-- ===== src/Scenarios/Recoveries.antt =====
-- Retries, proven blocks and supervisor scans of internal/recovery at concrete inputs.
use the_foundry.Prelude.{
  ℕ, ◌+◌, ◌++◌, ◌≢◌, ◌↔◌, ◌≤◌, ◌<◌, ◌≡◌, refl, Bool, true, false, String, none, some, List, [], ◌∷◌,
  arith, contains, length, length, lookup, lookup_or,
}
use mathlib.Core.List.{Memᴰ}
use the_foundry.Verify.{retryable}
use the_foundry.Recovery.Signature.{FailureSignature, repeats}
use the_foundry.Recovery.Retry.{retry, max_delay, backoff, decide}
use the_foundry.Recovery.Backoff.{Draws, backoff_bounded, default_policy, limit, decide_retry}
use the_foundry.Recovery.Blocked.{
  ProvenBlocked, missing_dependency_blocked, evaluate, Substantiates, evaluate-some, validate, keep,
  or_later, candidate,
}
use the_foundry.Recovery.Liveness.{
  Config, WorkflowSnapshot, IsLiveRunning, IsLiveWaiting, classify, classify_running, stale_limit,
  no_progress_limit, retry_limit, classify_healthy,
}
use the_foundry.State.Registry.{running, waiting}
use the_foundry.Recovery.Supervisor.{Event, Settings, repairable, scan_from}
use the_foundry.Recovery.Supervisor.Confined.{Scanned, scan_results, scan_confined}

abbrev flaky : FailureSignature
flaky = record {
  classification = retryable;
  detail = "connection reset";
  missing_dependency = false;
  contradictory_spec = false;
  evidence_refs = [];
}

abbrev lowest : ℕ → ℕ
lowest n = 0

lowest-Draws : Draws lowest
lowest-Draws n h = h

backoff_bounded_example :
    (d : ℕ) × (backoff lowest default_policy 2 ≡ some d) × (d ≤ max_delay default_policy)
unfolding max_delay
backoff_bounded_example = backoff_bounded lowest lowest-Draws default_policy 2 (omega arith)

abbrev slow : FailureSignature
slow = record flaky { detail = "timeout" }

decide_retry_example :
    ((decide lowest default_policy []).action ≢ retry)
    × (((decide lowest default_policy (slow ∷ [])).action ≡ retry)
        ↔ (1 < limit default_policy.budgets retryable))
    × (((decide lowest default_policy ([] ++ flaky ∷ slow ∷ [])).action ≡ retry) ↔ (
        (flaky.classification ≡ slow.classification → flaky.detail ≢ slow.detail)
        × (length {A = FailureSignature} [] + 2 < limit default_policy.budgets retryable)))
decide_retry_example = decide_retry lowest default_policy [] flaky slow refl refl

abbrev unresolvable : FailureSignature
unresolvable = record {
  classification = "verification-failed";
  detail = "module not found";
  missing_dependency = true;
  contradictory_spec = false;
  evidence_refs = "log:17" ∷ [];
}

abbrev unresolvable_verdict : ProvenBlocked
unresolvable_verdict = missing_dependency_blocked unresolvable

evaluate-some_example :
    (sig : FailureSignature) × Memᴰ sig (flaky ∷ unresolvable ∷ [])
    × Substantiates unresolvable_verdict sig
unfolding evaluate validate keep or_later candidate
evaluate-some_example = evaluate-some (flaky ∷ unresolvable ∷ []) unresolvable_verdict refl

abbrev defaults : Config
defaults = record { stale_after = 0; no_progress_after = 0; retry_budget = 0 }

abbrev beating : WorkflowSnapshot
beating = record {
  workflow_id = "mission-1";
  status = running;
  reason = "";
  last_heartbeat = 1_000_000_000;
  wake_at = none;
  last_progress_at = 0;
  attempt = 1;
  recent_failures = flaky ∷ [];
}

classify_healthy_example :
    (beating.status ≡ running → IsLiveRunning 2_000_000_000 beating defaults)
    × (beating.status ≡ waiting → IsLiveWaiting 2_000_000_000 beating)
unfolding classify classify_running stale_limit no_progress_limit retry_limit repeats lookup
    lookup_or
classify_healthy_example = (classify_healthy 2_000_000_000 beating defaults).0 refl

-- The world of these scans: the ids of the workflows that were reset, and the texts that were sent.
abbrev Log : Type 0
Log = List String × List String

abbrev reset : String → Log → Bool × Log
reset id log = (true, (id ∷ log.0, log.1))

abbrev ingest : Event → Log → Bool × Log
ingest ev log = (true, (log.0, ev.text ∷ log.1))

abbrev settings : Settings
settings = record { config = defaults; ops_chat_id = "ops"; ops_chat_type = "" }

abbrev silent : WorkflowSnapshot
silent = record beating { workflow_id = "mission-2"; last_heartbeat = 0 }

abbrev nothing_yet : Log
nothing_yet = ([], [])

scan_results_example :
    let scan =
      scan_from (λ w. 0) reset ingest settings 2_000_000_000 (beating ∷ silent ∷ []) nothing_yet in
    Scanned
      (λ w. 0)
      reset
      ingest
      settings
      2_000_000_000
      (beating ∷ silent ∷ [])
      nothing_yet
      scan.0
      scan.1
scan_results_example =
    scan_results (λ w. 0) reset ingest settings 2_000_000_000 (beating ∷ silent ∷ []) nothing_yet

-- Neither scan resets the workflow that is healthy.
abbrev Spared : Log → Type 0
Spared log = contains log.0 "mission-1" ≡ false

clash : false ≡ true → ⊥
clash e = cc

scan_confined_example :
    Spared
      (scan_from (λ w. 0) reset ingest settings 2_000_000_000 (beating ∷ silent ∷ []) nothing_yet).1
unfolding classify classify_running stale_limit no_progress_limit retry_limit repeats lookup
    lookup_or repairable
scan_confined_example =
    scan_confined (λ w. 0) reset ingest settings {P = Spared} (λ ev w h. h) 2_000_000_000
      (beating ∷ silent ∷ []) nothing_yet ((λ r. absurd (clash r)), ((λ r v h. h), tt)) refl
