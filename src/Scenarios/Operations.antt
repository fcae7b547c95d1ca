-- ===== src/Scenarios/Operations.antt =====
-- External operations: a push that crashes after its side effect, is made again and is reconciled.
use the_foundry.Prelude.{
  ◌+◌, ◌≡◌, refl, sym, Bool, true, ◌==◌, String, Option, none, some, List, [], ◌∷◌,
}
use the_foundry.Ledger.{
  Op, done, has_run, reserved, executed, Intent, get_by_key, new_op, insert_op, reserve, update,
  updated, marked, mark_executed,
}
use the_foundry.Kernel.ExternalOp.{
  World, empty, never, after_call, returned, record_result, after_fn, on_op, after_reservation,
  with_external_op, Event, calling, calling_fn, marking, reconciling, step, run, times,
  all_overlapping,
}
use the_foundry.Kernel.ExternalOp.Once.{with_external_op-once}
use the_foundry.Kernel.ExternalOp.Returned.{at_once}
use the_foundry.Kernel.ExternalOp.Retried.{with_external_op-retry}

abbrev intent : Intent
intent = record {
  workflow_id = "wf";
  kind = "scm.push";
  target = "org/repo#main";
  idempotency_key = "k";
}

abbrev text : String → Option String
text s = some s

abbrev same : String → String → Bool
same a b = a == b

abbrev crashing : List (Event String)
crashing = calling after_call intent (some "{}") (some "op1") (some "sha1") ∷ []

abbrev passes : List (Event String)
passes = reconciling (("scm.push", λ op. some "sha2") ∷ []) 10 ∷ []

abbrev op : Op
op = record {
  id = "op1";
  workflow_id = "wf";
  kind = "scm.push";
  target = "org/repo#main";
  idempotency_key = "k";
  state = reserved;
  request = "{}";
  receipt = none;
}

abbrev pushed : World
pushed = record {
  ledger = record op { state = executed; receipt = some "sha2" } ∷ [];
  calls = "k" ∷ "k" ∷ [];
}

crashed_ledger : (run text text text same crashing empty).ledger ≡ op ∷ []
unfolding run step with_external_op reserve insert_op new_op get_by_key after_reservation on_op
    after_fn
crashed_ledger = refl

retried :
    with_external_op text text never intent
      (some "{}")
      (some "op2")
      (some "sha2")
      (run text text text same crashing empty)
    ≡ (returned "sha2", pushed)
unfolding run step with_external_op reserve insert_op new_op get_by_key after_reservation on_op
    after_fn mark_executed update updated marked record_result
retried = refl

-- Another workflow that uses the same key.
abbrev again : Intent
again = record intent { workflow_id = "wf2" }

-- The call that crashed goes on after all, as another call's steps would.
abbrev late : List (Event String)
late = calling_fn op ∷ marking op "sha3" ∷ passes

with_external_op-once_example :
    (times "k" (run text text text same late pushed).calls
      ≡ all_overlapping "k" late + times "k" pushed.calls)
    × (with_external_op text text never again
          (some "[]")
          (some "op3")
          (some "sha4")
          (run text text text same late pushed)
        ≡ (returned "sha2", run text text text same late pushed))
    × ((op' : Op) × (reserve again
            (some "[]")
            (some "op3")
            (run text text text same late pushed).ledger
          ≡ (done op', (run text text text same late pushed).ledger))
        × (has_run op'.state ≡ true))
with_external_op-once_example =
    with_external_op-once text text text same crashing late intent "sha2" pushed again "[]" "op3"
      (some "sha4") (λ x receipt e. sym e) (at_once (some "{}") (some "op2") (some "sha2") retried)
      refl

with_external_op-retry_example :
    (with_external_op text text never intent
      (some "{}")
      (some "op2")
      (some "sha2")
      (run text text text same crashing empty)).0
    ≡ returned "sha2"
unfolding run step with_external_op reserve insert_op new_op get_by_key after_reservation on_op
    after_fn
with_external_op-retry_example =
    with_external_op-retry text text text same crashing intent "{}" "op2" "sha2" "sha2" op refl refl
      refl
