-- ===== src/Scenarios/Receipts.antt =====
-- Receipts of activities: a call that is retried after a failure to write its receipt.
use the_foundry.Prelude.{
  ◌≡◌, refl, sym, true, false, String, Option, none, some, List, [], ◌∷◌, lookup, insert,
}
use the_foundry.Kernel.Receipts.{
  Fault, no_fault, write_fails, returned, write_error, with_receipt, on_receipt, call_fn, write,
  decoded, run,
}
use the_foundry.Kernel.Receipts.Stores.{Receipts, mem_store, mem_put, pg_store, ideal_store}
use the_foundry.Kernel.Receipts.Refines.{run_refines}
use the_foundry.Kernel.Receipts.Once.{with_receipt-once}

abbrev text : String → Option String
text s = some s

abbrev calls : List (Fault × String × Option String)
calls =
    (write_fails, "wf|t|push|1", some "a")
    ∷ (no_fault, "wf|t|push|1", some "b")
    ∷ (no_fault, "wf|t|push|1", some "c")
    ∷ []

-- The failed write makes `fn` run twice; the third call reads the second's receipt.
answers : run text text mem_store calls [] ≡ (
  (write_error, true) ∷ (returned "b", true) ∷ (returned "b", false) ∷ [],
  ("wf|t|push|1", "b") ∷ [],
)
unfolding run with_receipt on_receipt call_fn write decoded mem_put lookup insert
answers = refl

abbrev nothing : Receipts
nothing k = none

run_refines_example :
    ((run text text pg_store calls []).0 ≡ (run text text ideal_store calls nothing).0)
    × ((key : String)
        → lookup key (run text text pg_store calls []).1
          ≡ (run text text ideal_store calls nothing).1 key)
unfolding lookup
run_refines_example = run_refines text text pg_store calls [] nothing (λ key. refl)

with_receipt-once_example :
    let later =
      (run text text mem_store calls
        (with_receipt text text mem_store no_fault "k" (some "x") []).store).1 in
    with_receipt text text mem_store no_fault "k" (some "y") later
    ≡ record { outcome = returned "x"; called = false; store = later }
unfolding with_receipt on_receipt call_fn write lookup
with_receipt-once_example =
    with_receipt-once text text mem_store no_fault "k" (some "x") [] "x" calls (some "y")
      (λ y raw e. sym e) refl
