-- ===== src/Scenarios/Integrations.antt =====
-- Pushes of two items to one branch, the second of which drifts.
use the_foundry.Prelude.{
  ◌+◌, ◌≤◌, ◌<◌, ◌≡◌, ◌≢◌, ◌⊎◌, true, String, Option, none, some, List, [], ◌∷◌, ◌++◌, arith,
}
use the_foundry.Kernel.Integrator.{
  Item, receipt_of, acquire_lease, read_head, cas_push, Push, record_receipt, release_lease, pushed,
  process_item, clean_only, DriftConfig, blocked,
}
use the_foundry.Kernel.Integrator.Fifo.{
  Operation, putting, taking, run, arrivals, held, run-arrivals,
}
use the_foundry.Kernel.Integrator.Pushed.{drifts, process_item-calls, drifts-blocked}

abbrev item : String → String → Item
item id base = record {
  id = id;
  branch = "main";
  group_id = "g";
  manifest_digest = "d";
  commits = id ∷ [];
  expected_base = base;
  enqueued_at = 2;
}

abbrev operations : List Operation
operations =
    putting (item "1" "sha0") ∷ putting (item "2" "sha0") ∷ taking "dev" ∷ taking "main" ∷ []

abbrev config : DriftConfig
config = record { policy = clean_only; max_retries = 3 }

run-arrivals_example :
    (run "main" operations []).0 ++ held "main" (run "main" operations []).1
    ≡ held "main" [] ++ arrivals "main" operations
run-arrivals_example = run-arrivals "main" operations []

abbrev lease : Option String
lease = some "t"

abbrev head : Option String
head = some "sha0"

abbrev base : Option String
base = some "sha0"

abbrev push : Push
push = pushed "sha1"

process_item-calls_example :
    let p = process_item (item "1" "sha0") lease head push 5 true in
    let start = acquire_lease "main" "1" in
    let attempt = cas_push "main" "sha0" ("1" ∷ []) in
    ((lease ≡ none) × (p.calls ≡ start ∷ []) × (p.receipt ≡ none))
    ⊎ ((token : String) × (lease ≡ some token)
        × (((head ≢ base)
              × (p.receipt ≡ none)
              × (p.calls ≡ start ∷ read_head "main" ∷ release_lease "main" token ∷ []))
            ⊎ ((head ≡ base)
                × (((after : String) × (push ≡ pushed after)
                      × (p.receipt ≡ some (receipt_of (item "1" "sha0") after 5))
                      × (p.calls
                          ≡ start
                            ∷ read_head "main"
                            ∷ attempt token
                            ∷ record_receipt (receipt_of (item "1" "sha0") after 5)
                            ∷ release_lease "main" token
                            ∷ []))
                    ⊎ (((after : String) → push ≢ pushed after)
                        × (p.receipt ≡ none)
                        × (p.calls
                            ≡ start
                              ∷ read_head "main"
                              ∷ attempt token
                              ∷ release_lease "main" token
                              ∷ []))))))
process_item-calls_example = process_item-calls (item "1" "sha0") lease head push 5 true

drifts-blocked_example :
    ((drifts config (true ∷ true ∷ true ∷ true ∷ []) 0).1 ≤ 3)
    × (3 < 0 + 4 → (drifts config (true ∷ true ∷ true ∷ true ∷ []) 0).0 ≡ blocked)
drifts-blocked_example = drifts-blocked config (true ∷ true ∷ true ∷ true ∷ []) 0 (omega arith)
