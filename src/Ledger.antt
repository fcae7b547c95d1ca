-- ===== src/Ledger.antt =====
-- internal/ledger/extops/store.go and internal/ledger/reconcile.go: the ledger of external operations. The
-- table is the list of its rows, oldest first, without their timestamps; the statements are read
-- as PostgreSQL documents INSERT ... ON CONFLICT DO NOTHING and UPDATE ... WHERE, each in one step. The
-- UNIQUE column decides before the primary key, which makes an INSERT fail. A payload is the text of
-- its JSONB value. Parameters: the id that newOpID draws, `none` where it fails, and a request's
-- encoding; encoding/json and reflect.DeepEqual, which jsonEqual uses, as `parse` and `equal`.
pub mod Passes
pub mod Grows
pub mod Live
use the_foundry.Prelude.{
  ℕ, suc, zero, ◌+◌, Bool, true, false, not, ◌&&◌, ◌||◌, ◌==◌, String, Option, none, some, List, [],
  ◌∷◌, ◌++◌, map, any, lookup, is_empty, if◌then◌else◌,
}

pub data OpState : Type 0 where
  reserved executed reconciled failed : OpState

abbrev pub is_reserved : OpState → Bool
is_reserved reserved = true
is_reserved executed = false
is_reserved reconciled = false
is_reserved failed = false

abbrev pub is_executed : OpState → Bool
is_executed executed = true
is_executed reserved = false
is_executed reconciled = false
is_executed failed = false

-- Whether the side effect is on record.
abbrev pub has_run : OpState → Bool
has_run executed = true
has_run reconciled = true
has_run reserved = false
has_run failed = false

pub record Op : Type 0 where
  pub id : String
  pub workflow_id : String
  pub kind : String
  pub target : String
  pub idempotency_key : String
  pub state : OpState
  pub request : String
  pub receipt : Option String

-- SELECT ... WHERE idempotency_key = $1, and WHERE id = $1.
unfoldable pub get_by_key : String → List Op → Option Op
get_by_key key [] = none
get_by_key key (op ∷ ops) = if op.idempotency_key == key then some op else get_by_key key ops

unfoldable pub get : String → List Op → Option Op
get id [] = none
get id (op ∷ ops) = if op.id == id then some op else get id ops

pub data StoreError : Type 0 where
  bad_request no_id id_taken bad_receipt op_not_found not_reserved not_executed : StoreError

pub data Answer {ℓ} (A : Type ℓ) : Type ℓ where
  done : A → Answer A
  error : StoreError → Answer A

-- What a caller reserves.
pub record Intent : Type 0 where
  pub workflow_id : String
  pub kind : String
  pub target : String
  pub idempotency_key : String

unfoldable pub new_op : Intent → String → String → Op
new_op intent id request = record {
  id = id;
  workflow_id = intent.workflow_id;
  kind = intent.kind;
  target = intent.target;
  idempotency_key = intent.idempotency_key;
  state = reserved;
  request = request;
  receipt = none;
}

-- Given the row of the key, where there is one.
unfoldable pub insert_op : Option Op → Op → List Op → Answer Op × List Op
insert_op (some existing) op table = (done existing, table)
insert_op none op table =
    if any (λ row. row.id == op.id) table
    then (error id_taken, table)
    else (done op, table ++ op ∷ [])

unfoldable pub reserve : Intent → Option String → Option String → List Op → Answer Op × List Op
reserve intent none draw table = (error bad_request, table)
reserve intent (some request) none table = (error no_id, table)
reserve intent (some request) (some id) table =
    insert_op (get_by_key intent.idempotency_key table) (new_op intent id request) table

-- UPDATE ... WHERE id = $1 AND state = ..., with the first row that it returns.
unfoldable pub updated : (Op → Bool) → (Op → Op) → List Op → Option Op
updated here change [] = none
updated here change (op ∷ ops) = if here op then some (change op) else updated here change ops

unfoldable pub update : (Op → Bool) → (Op → Op) → List Op → List Op
update here change table = map (λ op. if here op then change op else op) table

-- No row is returned: there is none of this id, or it is in another state.
unfoldable pub refusal {ℓ} : {A : Type ℓ} → Option Op → StoreError → Answer A
refusal none wrong_state = error op_not_found
refusal (some op) wrong_state = error wrong_state

abbrev pub awaits : String → Op → Bool
awaits id op = op.id == id && is_reserved op.state

abbrev pub execute : String → Op → Op
execute receipt op = record op { state = executed; receipt = some receipt }

unfoldable pub marked : Option Op → String → List Op → Answer Op
marked none id table = refusal (get id table) not_reserved
marked (some op) id table = done op

unfoldable pub mark_executed : String → Option String → List Op → Answer Op × List Op
mark_executed id none table = (error bad_receipt, table)
mark_executed id (some receipt) table = (
  marked (updated (awaits id) (execute receipt) table) id table,
  update (awaits id) (execute receipt) table,
)

abbrev pub to_reconcile : String → Op → Bool
to_reconcile id op = op.id == id && is_executed op.state

abbrev pub settle : Op → Op
settle op = record op { state = reconciled }

-- Up to `limit` operations in the state executed.
unfoldable pub list_executed : ℕ → List Op → List Op
list_executed n [] = []
list_executed zero (op ∷ ops) = []
list_executed (suc n) (op ∷ ops) =
    let rest = list_executed n ops in
    let all_rest = list_executed (suc n) ops in if is_executed op.state then op ∷ rest else all_rest

pub data Pass : Type 0 where
  passed cannot_observe : Pass
  store_failed : StoreError → Pass

-- The number of divergences counts the calls of IncExternalOperationDivergence.
unfoldable pub counted : Answer Bool → ℕ → List Op → Pass × ℕ × List Op
counted (error e) count table = (store_failed e, count, table)
counted (done diverges) count table = (passed, if diverges then count + 1 else count, table)

-- The rest of a loop, where a round does not return.
unfoldable pub carry_on :
    Pass × ℕ × List Op → (ℕ → List Op → Pass × ℕ × List Op) → Pass × ℕ × List Op
carry_on (passed, count, table) rest = rest count table
carry_on (cannot_observe, count, table) rest = (cannot_observe, count, table)
carry_on (store_failed e, count, table) rest = (store_failed e, count, table)

unfoldable pub observed_by : Option (Op → Option String) → Op → Option (Option String)
observed_by none op = none
observed_by (some observe) op = some (observe op)

module _ {ℓ} {V : Type ℓ} (parse : String → Option V) (equal : V → V → Bool) where
  unfoldable pub parsed_equal : Option V → Option V → Bool
  parsed_equal (some a) (some b) = equal a b
  parsed_equal (some a) none = false
  parsed_equal none o = false

  unfoldable pub json_equal : String → String → Bool
  unfolding parsed_equal
  json_equal a b = if a == "" && b == "" then true else parsed_equal (parse a) (parse b)

  -- A receipt that is NULL is an empty text.
  unfoldable pub diverged : Option Op → String → String → List Op → Answer Bool
  diverged none id observed table = refusal (get id table) not_executed
  diverged (some op) id observed table =
      done (not (json_equal (elim op.receipt [ none ↦ "" | some receipt ↦ receipt ]) observed))

  unfoldable pub reconcile : String → String → List Op → Answer Bool × List Op
  unfolding diverged
  reconcile id observed table = (
    diverged (updated (to_reconcile id) settle table) id observed table,
    update (to_reconcile id) settle table,
  )

  -- One round of RunOnce, on what the operation's prober observes.
  unfoldable pub reconcile_one : Option (Option String) → Op → ℕ → List Op → Pass × ℕ × List Op
  unfolding reconcile
  reconcile_one none op count table = (passed, count, table)
  reconcile_one (some none) op count table = (cannot_observe, count, table)
  reconcile_one (some (some observed)) op count table =
      let (answer, after) = reconcile op.id observed table in counted answer count after

  module _ (probers : List (String × (Op → Option String))) where
    unfoldable pub reconcile_all : List Op → ℕ → List Op → Pass × ℕ × List Op
    unfolding reconcile_one
    reconcile_all [] count table = (passed, count, table)
    reconcile_all (op ∷ ops) count table =
        carry_on (reconcile_one (observed_by (lookup op.kind probers) op) op count table)
          (reconcile_all ops)

    unfoldable pub run_once : ℕ → List Op → Pass × ℕ × List Op
    run_once limit table = reconcile_all (list_executed limit table) 0 table
