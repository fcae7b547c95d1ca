-- ===== src/Kernel/Integrator.antt =====
-- internal/kernel/integrator/integrator.go and drift.go: the queue of pushes for each branch, the push of
-- one item, and what is done about drift. The branch names the item's lease. Parameters of a push: what the
-- lease acquirer, the reader, the pusher and the receipt store answer; an error that wraps another is the
-- one that is wrapped. The texts of NextAction are left
-- out, and the time that a lease is asked for.
pub mod Fifo
pub mod Pushed
use the_foundry.Prelude.{
  ℕ, ◌+◌, Bool, true, false, not, ◌==◌, String, Option, none, some, List, [], ◌∷◌, ◌++◌, leb,
  lookup_or, insert, if◌then◌else◌,
}
use the_foundry.State.Registry.{ResultCode, proven_blocked}

pub record Item : Type 0 where
  pub id : String
  pub branch : String
  pub group_id : String
  pub manifest_digest : String
  pub commits : List String
  pub expected_base : String
  pub enqueued_at : ℕ

pub record Receipt : Type 0 where
  pub branch : String
  pub before_sha : String
  pub after_sha : String
  pub group_id : String
  pub manifest_digest : String
  pub issued_at : ℕ

-- A branch without an entry has an empty queue.
abbrev pub Queue : Type 0
Queue = List (String × List Item)

unfoldable pub enqueue : Item → Queue → Queue
enqueue item q = insert item.branch (lookup_or [] item.branch q ++ item ∷ []) q

unfoldable pub dequeue_over : List Item → String → Queue → Option Item × Queue
dequeue_over [] branch q = (none, q)
dequeue_over (next ∷ items) branch q = (some next, insert branch items q)

unfoldable pub dequeue : String → Queue → Option Item × Queue
unfolding dequeue_over
dequeue branch q = dequeue_over (lookup_or [] branch q) branch q

pub data IntegratorError : Type 0 where
  lease_error read_error drift_detected stale_fencing_token push_error receipt_error :
      IntegratorError

-- The calls that ProcessItem makes, in order.
pub data Call : Type 0 where
  acquire_lease : String → String → Call
  read_head : String → Call
  cas_push : String → String → List String → String → Call
  record_receipt : Receipt → Call
  release_lease : String → String → Call

pub data Push : Type 0 where
  pushed : String → Push
  stale other_error : Push

-- The receipt, which is returned also where it cannot be recorded, and the error.
pub record Processed : Type 0 where
  pub receipt : Option Receipt
  pub error : Option IntegratorError
  pub calls : List Call

abbrev pub receipt_of : Item → String → ℕ → Receipt
receipt_of item after now = record {
  branch = item.branch;
  before_sha = item.expected_base;
  after_sha = after;
  group_id = item.group_id;
  manifest_digest = item.manifest_digest;
  issued_at = now;
}

abbrev pub refused : IntegratorError → List Call → Processed
refused e calls = record { receipt = none; error = some e; calls = calls }

unfoldable pub after_push : Item → ℕ → Bool → Push → List Call → Processed
after_push item now recorded (pushed after) calls = record {
  receipt = some (receipt_of item after now);
  error = if recorded then none else some receipt_error;
  calls = calls ++ record_receipt (receipt_of item after now) ∷ [];
}
after_push item now recorded stale calls = refused stale_fencing_token calls
after_push item now recorded other_error calls = refused push_error calls

unfoldable pub on_head : Item → String → Option String → Push → ℕ → Bool → List Call → Processed
unfolding after_push
on_head item token none push now recorded calls = refused read_error calls
on_head item token (some head) push now recorded calls =
    if not (head == item.expected_base)
    then refused drift_detected calls
    else after_push item now recorded push
        (calls ++ cas_push item.branch item.expected_base item.commits token ∷ [])

-- What the deferred call adds.
unfoldable pub deferred : Item → String → Processed → Processed
deferred item token p = record p { calls = p.calls ++ release_lease item.branch token ∷ [] }

unfoldable pub process_item : Item → Option String → Option String → Push → ℕ → Bool → Processed
unfolding on_head deferred
process_item item none head push now recorded =
    refused lease_error (acquire_lease item.branch item.id ∷ [])
process_item item (some token) head push now recorded = deferred item token (
    on_head item token head push now recorded
      (acquire_lease item.branch item.id ∷ read_head item.branch ∷ []))

pub data RebasePolicy : Type 0 where
  clean_only no_rebase : RebasePolicy
  other_policy : String → RebasePolicy

pub record DriftConfig : Type 0 where
  pub policy : RebasePolicy
  pub max_retries : ℕ

pub data Resolution : Type 0 where
  requeued blocked : Resolution

pub record DriftResult : Type 0 where
  pub resolution : Resolution
  pub result_code : ResultCode
  pub retry_count : ℕ

abbrev pub give_up : ℕ → DriftResult
give_up retry_count = record {
  resolution = blocked;
  result_code = proven_blocked;
  retry_count = retry_count;
}

unfoldable pub evaluate_policy : RebasePolicy → ℕ → ℕ → Bool → DriftResult
evaluate_policy no_rebase max retry_count rebase_clean = give_up retry_count
evaluate_policy clean_only max retry_count rebase_clean =
    if not rebase_clean
    then give_up retry_count
    else if leb max retry_count
    then give_up retry_count
    else record { resolution = requeued; result_code = ""; retry_count = retry_count + 1 }
evaluate_policy (other_policy p) max retry_count rebase_clean = give_up retry_count

unfoldable pub evaluate_drift : DriftConfig → ℕ → Bool → DriftResult
unfolding evaluate_policy
evaluate_drift config retry_count rebase_clean =
    evaluate_policy config.policy config.max_retries retry_count rebase_clean
