-- ===== src/Kernel/ChangeSet.antt =====
-- internal/kernel/changeset.go: topoOrder and FreezeContracts; RunChangeSet is in
-- ChangeSet/Saga. A count of dependencies is decreased to 0 at least: where it is 0 already, the
-- source would make it negative, and neither is then found to have become 0. The
-- combined digest of the contracts, which RunChangeSet drops, is left out; `name_at` is the text of a
-- contract's name and digest.
pub mod Ends
pub mod Counted
pub mod Covers
pub mod Saga
pub mod Honest
pub mod Outcome
pub mod Run
use the_foundry.Prelude.{
  ℕ, zero, suc, ◌+◌, ◌-◌, Bool, true, false, not, ◌&&◌, ◌==◌, String, Option, none, some, List, [],
  ◌∷◌, ◌++◌, map, eqb, length, is_empty, contains, all, lookup, lookup_or, insert, sort_strings,
  if◌then◌else◌,
}
use mathlib.Core.Option

pub record RepoNode : Type 0 where
  pub alias : String
  pub depends_on : List String

pub record Contract : Type 0 where
  pub name : String
  pub digest : String

pub record Graph : Type 0 where
  pub in_degree : List (String × ℕ)
  pub dependents : List (String × List String)

-- deps[d] = append(deps[d], alias); indeg[alias]++
unfoldable pub add_edge : String → String → Graph → Graph
add_edge alias d g = record {
  in_degree = insert alias (lookup_or 0 alias g.in_degree + 1) g.in_degree;
  dependents = insert d (lookup_or [] d g.dependents ++ alias ∷ []) g.dependents;
}

pub data Built : Type 0 where
  built : Graph → Built
  unknown_repo : String → String → Built

unfoldable pub add_edges : List String → String → List String → Graph → Built
add_edges known alias [] g = built g
add_edges known alias (d ∷ ds) g =
    let rest = add_edges known alias ds (add_edge alias d g) in
    if not (contains known d) then unknown_repo alias d else rest

unfoldable pub with_entry : Option ℕ → String → Graph → Graph
with_entry (some n) alias g = g
with_entry none alias g = record g { in_degree = insert alias 0 g.in_degree }

unfoldable pub build_next : Built → (Graph → Built) → Built
build_next (built g) rest = rest g
build_next (unknown_repo a d) rest = unknown_repo a d

unfoldable pub build : List String → List RepoNode → Graph → Built
unfolding build_next
build known [] g = built g
build known (r ∷ rs) g =
    build_next
      (add_edges known r.alias r.depends_on (with_entry (lookup r.alias g.in_degree) r.alias g))
      (build known rs)

unfoldable pub roots : List (String × ℕ) → List String
roots [] = []
roots (e ∷ es) = let rest = roots es in if eqb e.1 0 then e.0 ∷ rest else rest

-- The loop over the children: indeg[c]--, and c is ready if that is 0 now. A count of 0 stays 0 here and
-- falls below 0 in the source; either way c does not become ready by it, then or later.
unfoldable pub settle :
    List String → List String → List (String × ℕ) → List String × List (String × ℕ)
settle [] ready degrees = (ready, degrees)
settle (c ∷ cs) ready degrees =
    let n = lookup_or 0 c degrees in
    settle cs (if eqb n 1 then ready ++ c ∷ [] else ready) (insert c (n - 1) degrees)

-- One round for each repo that becomes ready.
unfoldable pub kahn :
    ℕ → List (String × List String) → List String → List (String × ℕ) → Option (List String)
kahn fuel dependents [] degrees = some []
kahn zero dependents (next ∷ ready) degrees = none
kahn (suc fuel) dependents (next ∷ ready) degrees =
    let (ready', degrees') = settle (sort_strings (lookup_or [] next dependents)) ready degrees in
    Option.map (λ order. next ∷ order) (kahn fuel dependents (sort_strings ready') degrees')

pub data Order : Type 0 where
  order : List String → Order
  depends_on_unknown : String → String → Order
  cycle : ℕ → Order
  out_of_fuel : Order

unfoldable pub complete : ℕ → Option (List String) → Order
complete repos none = out_of_fuel
complete repos (some found) = if not (eqb (length found) repos) then cycle repos else order found

unfoldable pub order_of : ℕ → Built → Order
unfolding complete
order_of repos (unknown_repo alias d) = depends_on_unknown alias d
order_of repos (built g) =
    complete repos
      (kahn (length g.in_degree) g.dependents (sort_strings (roots g.in_degree)) g.in_degree)

unfoldable pub topo_order : List RepoNode → Order
unfolding order_of
topo_order repos =
    order_of (length repos)
      (build (map (λ r. r.alias) repos) repos (record { in_degree = []; dependents = [] }))

-- append(digests, c.Name+"@"+c.Digest), sorted
unfoldable pub freeze_contracts : (String → String → String) → List Contract → List String
freeze_contracts name_at contracts = sort_strings (map (λ c. name_at c.name c.digest) contracts)
