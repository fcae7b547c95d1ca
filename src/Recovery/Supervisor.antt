-- ===== src/Recovery/Supervisor.antt =====
-- The scan of internal/recovery/supervisor.go. The clock, the projection source, the workflow
-- controller and the notifier are interfaces of the source: here they act on a world `W`. A `false`
-- answer is an error. The log lines are left out.
pub mod Confined
use Prim.Native.String.{◌++◌ as append}
use the_foundry.Prelude.{
  ℕ, Bool, true, false, not, String, Option, none, some, List, [], ◌∷◌, ◌==◌, if◌then◌else◌,
}
use the_foundry.Recovery.Liveness.{
  Condition, healthy, dead_worker, stuck_activity, missing_wake, poisoned_task, infinite_retry,
  orphaned, WorkflowSnapshot, Config, classify,
}

unfoldable pub to_string : Condition → String
to_string healthy = "healthy"
to_string dead_worker = "dead-worker"
to_string stuck_activity = "stuck-activity"
to_string missing_wake = "missing-wake"
to_string poisoned_task = "poisoned-task"
to_string infinite_retry = "infinite-retry"

pub data Class : Type 0 where
  p0_critical p1_command p2_state p3_progress : Class

pub record Event : Type 0 where
  pub class : Class
  pub chat_id : String
  pub chat_type : String
  pub workflow : String
  pub text : String
  pub dedupe_key : String
  pub occurred_at : ℕ

pub data Action : Type 0 where
  repaired escalated repair_failed escalation_failed : Action

-- `failed` says whether the source's `Err` is set.
pub record ScanResult : Type 0 where
  pub workflow_id : String
  pub condition : Condition
  pub action : Action
  pub failed : Bool

pub record Settings : Type 0 where
  pub config : Config
  pub ops_chat_id : String
  pub ops_chat_type : String

unfoldable pub repairable : Condition → Bool
repairable dead_worker = true
repairable stuck_activity = true
repairable _ = false

unfoldable pub chat_type : Settings → String
chat_type s = if not (s.ops_chat_type == "") then s.ops_chat_type else "private"

module _ {W : Type 0} (clock : W → ℕ) (reset : String → W → Bool × W)
    (ingest : Event → W → Bool × W) (s : Settings) where
  unfoldable pub escalation : WorkflowSnapshot → Condition → W → Event
  unfolding to_string chat_type
  escalation snap cond w = record {
    class = p1_command;
    chat_id = s.ops_chat_id;
    chat_type = chat_type s;
    workflow = snap.workflow_id;
    text = append "liveness supervisor: workflow " (
        append snap.workflow_id
          (append " is " (append (to_string cond) " -- needs operator attention")));
    dedupe_key = append "liveness:" (append snap.workflow_id (append ":" (to_string cond)));
    occurred_at = clock w;
  }

  unfoldable pub escalate : WorkflowSnapshot → Condition → Action → W → ScanResult × W
  escalate snap cond on_success w =
      let (sent, w') = ingest (escalation snap cond w) w in
      if not sent
      then (
        record {
          workflow_id = snap.workflow_id;
          condition = cond;
          action = escalation_failed;
          failed = true;
        },
        w',
      )
      else (
        record {
          workflow_id = snap.workflow_id;
          condition = cond;
          action = on_success;
          failed = false;
        },
        w',
      )

  unfoldable pub handle : WorkflowSnapshot → Condition → W → ScanResult × W
  handle snap cond w =
      if not (repairable cond)
      then escalate snap cond escalated w
      else (let (done, w') = reset snap.workflow_id w in
          if not done then escalate snap cond repair_failed w' else (
            record {
              workflow_id = snap.workflow_id;
              condition = cond;
              action = repaired;
              failed = false;
            },
            w',
          ))

  -- append(results, s.handle(...)), then the rest of the loop
  unfoldable pub cons_result : ScanResult × W → (W → List ScanResult × W) → List ScanResult × W
  cons_result (r, w) rest = let (rs, w') = rest w in (r ∷ rs, w')

  -- The loop over the snapshots.
  unfoldable pub scan_from : ℕ → List WorkflowSnapshot → W → List ScanResult × W
  unfolding cons_result
  scan_from now [] w = ([], w)
  scan_from now (snap ∷ snaps) w =
      let cond = classify now snap s.config in
      if not (orphaned cond)
      then scan_from now snaps w
      else cons_result (handle snap cond w) (λ w'. scan_from now snaps w')

  -- `none` is the error of a source that cannot list the workflows.
  unfoldable pub scan_listed : ℕ → Option (List WorkflowSnapshot) × W → Option (List ScanResult) × W
  scan_listed now (none, w) = (none, w)
  scan_listed now (some snaps, w) = let (rs, w') = scan_from now snaps w in (some rs, w')

  unfoldable pub scan_once :
      (W → Option (List WorkflowSnapshot) × W) → W → Option (List ScanResult) × W
  unfolding scan_listed
  scan_once list_nonterminal w = scan_listed (clock w) (list_nonterminal w)
