-- ===== src/Kernel/ExternalOp.antt =====
-- internal/kernel/externalop.go: WithExternalOp over the ledger of internal/ledger/extops. The world is the
-- ledger and the log of the operations' keys for which `fn` was called, newest first. Parameters: what
-- `fn` answers, `none` for an error; json.Marshal of a result into the JSONB column, and
-- json.Unmarshal of what the column gives back. A call may die after Reserve has committed or after `fn`
-- has run: with its process, or since the next statement fails. Calls take no lock, so they may overlap: of
-- a call that others overlap, the steps are events of their own, Reserve (`calling after_reserve`), the
-- call of `fn` (`calling_fn`) and MarkExecuted (`marking`); a call in one event is one that none overlaps.
pub mod Settled
pub mod Calls
pub mod Returned
pub mod Once
pub mod Retried
use the_foundry.Prelude.{
  ℕ, ◌+◌, ◌==◌, Bool, true, false, Option, none, some, String, List, [], ◌∷◌, if◌then◌else◌,
}
use the_foundry.Ledger.{
  Op, Intent, StoreError, Answer, done, error, has_run, reserve, mark_executed, run_once,
}

pub record World : Type 0 where
  pub ledger : List Op
  pub calls : List String

abbrev pub empty : World
empty = record { ledger = []; calls = [] }

pub data Crash : Type 0 where
  never after_reserve after_call : Crash

abbrev pub dies_after_reserve : Crash → Bool
dies_after_reserve after_reserve = true
dies_after_reserve never = false
dies_after_reserve after_call = false

abbrev pub dies_after_call : Crash → Bool
dies_after_call after_call = true
dies_after_call never = false
dies_after_call after_reserve = false

pub data Outcome (T : Type 0) : Type 0 where
  returned : T → Outcome T
  store_error : StoreError → Outcome T
  bad_stored_receipt call_failed crashed : Outcome T

module _ {T : Type 0} (encode : T → Option String) (decode : String → Option T) where
  unfoldable pub decoded : Option T → Outcome T
  decoded none = bad_stored_receipt
  decoded (some result) = returned result

  -- A receipt that is NULL is no JSON.
  unfoldable pub stored : Option String → Outcome T
  unfolding decoded
  stored none = bad_stored_receipt
  stored (some receipt) = decoded (decode receipt)

  unfoldable pub record_result : T → Answer Op × List Op → List String → Outcome T × World
  record_result result (done op, ledger) calls =
      (returned result, record { ledger = ledger; calls = calls })
  record_result result (error e, ledger) calls =
      (store_error e, record { ledger = ledger; calls = calls })

  -- After `fn`, whose call is in the log.
  unfoldable pub after_fn : Crash → Option T → Op → World → Outcome T × World
  after_fn crash none op w = (call_failed, w)
  after_fn crash (some result) op w =
      if dies_after_call crash
      then (crashed, w)
      else record_result result (mark_executed op.id (encode result) w.ledger) w.calls

  unfoldable pub on_op : Crash → Option T → Op → World → Outcome T × World
  unfolding stored after_fn
  on_op crash fn op w =
      if dies_after_reserve crash
      then (crashed, w)
      else if has_run op.state
      then (stored op.receipt, w)
      else after_fn crash fn op (record w { calls = op.idempotency_key ∷ w.calls })

  unfoldable pub after_reservation :
      Crash → Option T → Answer Op × List Op → List String → Outcome T × World
  unfolding on_op
  after_reservation crash fn (error e, ledger) calls =
      (store_error e, record { ledger = ledger; calls = calls })
  after_reservation crash fn (done op, ledger) calls =
      on_op crash fn op (record { ledger = ledger; calls = calls })

  unfoldable pub with_external_op :
      Crash → Intent → Option String → Option String → Option T → World → Outcome T × World
  unfolding after_reservation
  with_external_op crash intent request draw fn w =
      after_reservation crash fn (reserve intent request draw w.ledger) w.calls

-- Everything that uses the ledger: calls of WithExternalOp, the later steps of a call whose Reserve has
-- returned an operation and which others overlap, and passes of the reconciler.
pub data Event (T : Type 0) : Type 0 where
  calling : Crash → Intent → Option String → Option String → Option T → Event T
  calling_fn : Op → Event T
  marking : Op → T → Event T
  reconciling : List (String × (Op → Option String)) → ℕ → Event T

module _ {T V : Type 0} (encode : T → Option String) (decode : String → Option T)
    (parse : String → Option V) (equal : V → V → Bool) where
  unfoldable pub step : Event T → World → World
  step (calling crash intent request draw fn) w =
      (with_external_op encode decode crash intent request draw fn w).1
  step (calling_fn op) w = record w { calls = op.idempotency_key ∷ w.calls }
  step (marking op result) w = record w {
    ledger = (mark_executed op.id (encode result) w.ledger).1;
  }
  step (reconciling probers limit) w = record w {
    ledger = (run_once parse equal probers limit w.ledger).2;
  }

  unfoldable pub run : List (Event T) → World → World
  unfolding step
  run [] w = w
  run (e ∷ es) w = run es (step e w)

-- How often `fn` was called for a key.
unfoldable pub times : String → List String → ℕ
times key [] = 0
times key (k ∷ calls) = if k == key then 1 + times key calls else times key calls

-- How often a call that others overlap calls `fn` for a key, in one event and in a run.
unfoldable pub overlapping : {T : Type 0} → String → Event T → ℕ
overlapping key (calling crash intent request draw fn) = 0
overlapping key (calling_fn op) = if op.idempotency_key == key then 1 else 0
overlapping key (marking op result) = 0
overlapping key (reconciling probers limit) = 0

unfoldable pub all_overlapping : {T : Type 0} → String → List (Event T) → ℕ
unfolding overlapping
all_overlapping key [] = 0
all_overlapping key (e ∷ es) = overlapping key e + all_overlapping key es
