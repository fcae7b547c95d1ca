-- ===== src/Pec/Waves.antt =====
-- internal/pec/waves.go: tasks in waves by Kahn's algorithm. The maps `deps` and `inDegree` and the set
-- `remaining` have the same keys, and are one list here, an entry for each id in `remaining`. The
-- explanation is left out.
pub mod Fuel
pub mod Sets
pub mod Layered
pub mod Placed
use the_foundry.Prelude.{
  ℕ, zero, suc, ◌-◌, Bool, true, false, not, ◌&&◌, String, Option, none, some, List, [], ◌∷◌, ◌==◌,
  eqb, length, any, contains, is_empty, map, sort_strings, if◌then◌else◌,
}
use the_foundry.Plan.{Task, task_ids}

pub record Pending : Type 0 where
  pub id : String
  pub deps : List String
  pub in_degree : ℕ

-- A set of texts: set[x] = struct{}{} and delete(set, x)
unfoldable pub add_to_set : String → List String → List String
add_to_set x set = if contains set x then set else x ∷ set

unfoldable pub add_all : List String → List String → List String
unfolding add_to_set
add_all [] set = set
add_all (x ∷ xs) set = add_to_set x (add_all xs set)

unfoldable pub remove_from_set : String → List String → List String
remove_from_set x [] = []
remove_from_set x (y ∷ set) = let rest = remove_from_set x set in if y == x then rest else y ∷ rest

-- The dependencies that the tasks of an id declare.
unfoldable pub deps_of : String → List Task → List String
deps_of id [] = []
deps_of id (t ∷ ts) =
    let rest = deps_of id ts in if t.id == id then add_all t.depends_on rest else rest

unfoldable pub first_unknown : List String → List String → Option String
first_unknown ids [] = none
first_unknown ids (dep ∷ deps) = if not (contains ids dep) then some dep else first_unknown ids deps

pub data Proposal : Type 0 where
  waves : List (List String) → Proposal
  unknown_dependency : String → String → Proposal
  cycle : List String → Proposal
  out_of_fuel : Proposal

unfoldable pub or_unknown : Option String → String → Option Proposal → Option Proposal
or_unknown none task later = later
or_unknown (some dep) task later = some (unknown_dependency task dep)

unfoldable pub unknown_in : List String → List Task → Option Proposal
unknown_in ids [] = none
unknown_in ids (t ∷ ts) = or_unknown (first_unknown ids t.depends_on) t.id (unknown_in ids ts)

-- The entry of an id before the first wave.
abbrev pub entry : List Task → String → Pending
entry tasks id = record { id = id; deps = deps_of id tasks; in_degree = length (deps_of id tasks) }

unfoldable pub ready : List Pending → List String
ready [] = []
ready (p ∷ ps) = let rest = ready ps in if eqb p.in_degree 0 then p.id ∷ rest else rest

-- delete(remaining, id) for each id of the wave
unfoldable pub remove_placed : List String → List Pending → List Pending
remove_placed wave [] = []
remove_placed wave (p ∷ ps) =
    let rest = remove_placed wave ps in if contains wave p.id then rest else p ∷ rest

-- inDegree[id]-- and delete(deps[id], placed), where it depends on it
abbrev pub settle_one : String → Pending → Pending
settle_one placed p =
    if contains p.deps placed
    then record p { in_degree = p.in_degree - 1; deps = remove_from_set placed p.deps }
    else p

-- The inner loop over the wave.
unfoldable pub settle : List String → Pending → Pending
settle [] p = p
settle (placed ∷ wave) p = settle wave (settle_one placed p)

unfoldable pub settle_all : List String → List Pending → List Pending
settle_all wave [] = []
settle_all wave (p ∷ ps) = settle wave p ∷ settle_all wave ps

abbrev pub ids_of : List Pending → List String
ids_of [] = []
ids_of (p ∷ ps) = p.id ∷ ids_of ps

-- append(waves, wave) before the later ones
unfoldable pub put_first : List String → Proposal → Proposal
put_first wave (waves ws) = waves (wave ∷ ws)
put_first wave (unknown_dependency t d) = unknown_dependency t d
put_first wave (cycle ids) = cycle ids
put_first wave out_of_fuel = out_of_fuel

-- The loop while entries remain. Each round places one at least, so as many rounds as entries suffice.
unfoldable pub layer : ℕ → List Pending → Proposal
unfolding put_first
layer fuel [] = waves []
layer zero (p ∷ ps) = out_of_fuel
layer (suc fuel) (p ∷ ps) =
    let wave = sort_strings (ready (p ∷ ps)) in
    let later = layer fuel (settle_all wave (remove_placed wave (p ∷ ps))) in
    if is_empty (ready (p ∷ ps))
    then cycle (sort_strings (ids_of (p ∷ ps)))
    else put_first wave later

unfoldable pub propose_known : Option Proposal → List Task → Proposal
unfolding layer
propose_known (some refused) tasks = refused
propose_known none tasks =
    let pending = map (entry tasks) (add_all (task_ids tasks) []) in layer (length pending) pending

unfoldable pub propose_waves : List Task → Proposal
unfolding propose_known
propose_waves tasks = propose_known (unknown_in (task_ids tasks) tasks) tasks
