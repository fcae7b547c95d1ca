-- ===== src/Scenarios/ChangeSets.antt =====
-- A change-set of three repos, one of which fails to push.
use the_foundry.Prelude.{
  ◌≡◌, refl, true, false, String, List, [], ◌∷◌, lookup, lookup_or, insert, sort_strings,
}
use the_foundry.Kernel.ChangeSet.{
  RepoNode, order, topo_order, order_of, build, build_next, with_entry, add_edges, add_edge,
  complete, kahn, settle, roots,
}
use the_foundry.Kernel.ChangeSet.Saga
use the_foundry.Kernel.ChangeSet.Ends.{ran_out, topo_order_ends}
use the_foundry.Kernel.ChangeSet.Run.{IsHonestResult, run_change_set-IsHonestResult}

abbrev repos : List RepoNode
repos =
    record { alias = "app"; depends_on = "lib" ∷ [] }
    ∷ record { alias = "docs"; depends_on = [] }
    ∷ record { alias = "lib"; depends_on = [] }
    ∷ []

abbrev plan : Saga.Plan
plan = record { initiative_id = "i"; contracts = []; repos = repos; env_revision = "e" }

abbrev attempt : String → Saga.RepoAttempt String
attempt branch = record { pushed = true; receipt = branch; err = "" }

abbrev attempts : List (String × Saga.RepoAttempt String)
attempts =
    ("app", attempt "tenx/app")
    ∷ ("docs", attempt "tenx/docs")
    ∷ ("lib", record { pushed = false; receipt = ""; err = "tests" })
    ∷ []

abbrev branch_of : String → String
branch_of receipt = receipt

abbrev name_at : String → String → String
name_at name digest = name

ordered : topo_order repos ≡ order ("docs" ∷ "lib" ∷ "app" ∷ [])
unfolding topo_order order_of build build_next with_entry add_edges add_edge complete kahn settle
    roots lookup lookup_or insert sort_strings
ordered = refl

topo_order_ends_example : ran_out (topo_order repos) ≡ false
topo_order_ends_example = topo_order_ends repos

run_change_set-IsHonestResult_example :
    IsHonestResult "" branch_of name_at plan attempts
      (Saga.run_change_set "" branch_of name_at plan attempts)
run_change_set-IsHonestResult_example =
    run_change_set-IsHonestResult "" branch_of name_at plan attempts
