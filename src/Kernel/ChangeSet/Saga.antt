-- ===== src/Kernel/ChangeSet/Saga.antt =====
-- internal/kernel/changeset.go: RunChangeSet. The receipt of a push is the parameter `R`, with its zero
-- value and the name of its branch. Of NextAction the repos and the branches that it names are kept.
use the_foundry.Prelude.{
  Bool, true, false, ◌&&◌, ◌==◌, String, List, [], ◌∷◌, ◌++◌, eqb, length, is_empty, contains, all,
  lookup_or, insert, sort_strings, if◌then◌else◌,
}
use the_foundry.State.Registry.{
  Status, ResultCode, succeeded, failed, proven_blocked, handoff_ready,
}
use the_foundry.Kernel.ChangeSet.{
  RepoNode, Contract, freeze_contracts, Order, order, depends_on_unknown, cycle, out_of_fuel,
  topo_order,
}

pub data RepoStatus : Type 0 where
  integrated pushed_blocked repo_failed : RepoStatus

pub record RepoAttempt (R : Type 0) : Type 0 where
  pub pushed : Bool
  pub receipt : R
  pub err : String

pub record RepoReceipt (R : Type 0) : Type 0 where
  pub alias : String
  pub status : RepoStatus
  pub receipt : R
  pub error : String

pub record Plan : Type 0 where
  pub initiative_id : String
  pub contracts : List Contract
  pub repos : List RepoNode
  pub env_revision : String

pub data NextAction : Type 0 where
  no_action : NextAction
  resolve_graph : Order → NextAction
  reconcile_repos : List String → List String → NextAction

pub record SagaResult (R : Type 0) : Type 0 where
  pub initiative_id : String
  pub status : Status
  pub result_code : ResultCode
  pub contract_digests : List String
  pub env_revision : String
  pub receipts : List (String × RepoReceipt R)
  pub next_action : NextAction

pub record Progress (R : Type 0) : Type 0 where
  pub integrated_repos : List String
  pub failed_repos : List String
  pub receipts : List (String × RepoReceipt R)

unfoldable pub deps_of : List RepoNode → List (String × List String) → List (String × List String)
deps_of [] deps = deps
deps_of (r ∷ rs) deps = deps_of rs (insert r.alias r.depends_on deps)

module _ {R : Type 0} (no_receipt : R) (branch_of : R → String) where
  abbrev pub attempt_of : List (String × RepoAttempt R) → String → RepoAttempt R
  attempt_of attempts alias =
      lookup_or (record { pushed = false; receipt = no_receipt; err = "" }) alias attempts

  abbrev pub receipt_of : String → RepoStatus → R → String → RepoReceipt R
  receipt_of alias status receipt error = record {
    alias = alias;
    status = status;
    receipt = receipt;
    error = error;
  }

  -- The switch of one round, on whether the repo has pushed and whether its dependencies are integrated.
  unfoldable pub place : Bool → Bool → String → RepoAttempt R → Progress R → Progress R
  place true true alias a p = record p {
    integrated_repos =
        if contains p.integrated_repos alias
        then p.integrated_repos
        else alias ∷ p.integrated_repos;
    receipts = insert alias (receipt_of alias integrated a.receipt "") p.receipts;
  }
  place true false alias a p = record p {
    receipts = insert alias (receipt_of alias pushed_blocked a.receipt "") p.receipts;
  }
  place false deps_ok alias a p = record p {
    failed_repos = p.failed_repos ++ alias ∷ [];
    receipts = insert alias (receipt_of alias repo_failed no_receipt a.err) p.receipts;
  }

  unfoldable pub integrate :
      List (String × List String)
      → List (String × RepoAttempt R)
      → List String
      → Progress R
      → Progress R
  integrate deps attempts [] p = p
  integrate deps attempts (alias ∷ later) p = integrate deps attempts later (
      place (attempt_of attempts alias).pushed
        (all (contains p.integrated_repos) (lookup_or [] alias deps)) alias
        (attempt_of attempts alias) p)

  unfoldable pub raw_over : Bool → String → RepoAttempt R → RepoReceipt R
  raw_over true alias a = receipt_of alias pushed_blocked a.receipt ""
  raw_over false alias a = receipt_of alias repo_failed a.receipt a.err

  unfoldable pub raw_receipts :
      List (String × RepoAttempt R)
      → List RepoNode
      → List (String × RepoReceipt R)
      → List (String × RepoReceipt R)
  unfolding raw_over
  raw_receipts attempts [] receipts = receipts
  raw_receipts attempts (r ∷ rs) receipts =
      (let a = attempt_of attempts r.alias in
        raw_receipts attempts rs (insert r.alias (raw_over a.pushed r.alias a) receipts))

  abbrev pub has_pushed : RepoStatus → Bool
  has_pushed integrated = true
  has_pushed pushed_blocked = true
  has_pushed repo_failed = false

  unfoldable pub branches : List (String × RepoReceipt R) → List String
  branches [] = []
  branches (e ∷ es) =
      let rest = branches es in
      let b = branch_of e.1.receipt in
      if has_pushed e.1.status then (if b == "" then e.1.alias else b) ∷ rest else rest

  -- What the saga ends with, given what it integrated.
  unfoldable pub conclude : (String → String → String) → Plan → Progress R → SagaResult R
  unfolding branches
  conclude name_at plan p =
      let success =
        is_empty p.failed_repos && eqb (length p.integrated_repos) (length plan.repos) in
      record {
        initiative_id = plan.initiative_id;
        status = if success then succeeded else failed;
        result_code = if success then handoff_ready else proven_blocked;
        contract_digests = freeze_contracts name_at plan.contracts;
        env_revision = plan.env_revision;
        receipts = p.receipts;
        next_action =
            if success
            then no_action
            else reconcile_repos (sort_strings p.failed_repos) (sort_strings (branches p.receipts));
      }

  unfoldable pub refuse :
      (String → String → String) → Plan → List (String × RepoAttempt R) → Order → SagaResult R
  unfolding raw_receipts
  refuse name_at plan attempts o = record {
    initiative_id = plan.initiative_id;
    status = failed;
    result_code = proven_blocked;
    contract_digests = freeze_contracts name_at plan.contracts;
    env_revision = plan.env_revision;
    receipts = raw_receipts attempts plan.repos [];
    next_action = resolve_graph o;
  }

  unfoldable pub run_ordered :
      (String → String → String) → Plan → List (String × RepoAttempt R) → Order → SagaResult R
  unfolding conclude refuse integrate
  run_ordered name_at plan attempts (order aliases) = conclude name_at plan (
      integrate (deps_of plan.repos []) attempts aliases
        (record { integrated_repos = []; failed_repos = []; receipts = [] }))
  run_ordered name_at plan attempts (depends_on_unknown r d) =
      refuse name_at plan attempts (depends_on_unknown r d)
  run_ordered name_at plan attempts (cycle n) = refuse name_at plan attempts (cycle n)
  run_ordered name_at plan attempts out_of_fuel = refuse name_at plan attempts out_of_fuel

  unfoldable pub run_change_set :
      (String → String → String) → Plan → List (String × RepoAttempt R) → SagaResult R
  unfolding run_ordered
  run_change_set name_at plan attempts = run_ordered name_at plan attempts (topo_order plan.repos)
