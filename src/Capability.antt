-- ===== src/Capability.antt =====
-- internal/executor/capability: the records of executors (model.go), eligibility (eligible.go), Lookup
-- (load.go) and the circuit breaker (health.go). The fields that no modelled code reads are left out.
-- A duration that is not positive reads as 0; the mutex makes each operation one step.
pub mod Health
use the_foundry.Prelude.{
  Bool, true, false, not, ◌&&◌, ◌||◌, String, Option, none, some, List, [], ◌∷◌, ◌==◌, is_empty,
  contains, str_ltb, sort_by, if◌then◌else◌,
}

abbrev pub availability_supported : String
availability_supported = "supported"

abbrev pub sandbox_supported : String
sandbox_supported = "sandbox_supported"

pub record Capability : Type 0 where
  pub provider : String
  pub features : List String
  pub availability : String
  pub profile_allow : List String
  pub profile_deny : List String
  pub sandbox_eligibility : String

-- The executors of a registry, in order.
abbrev pub Registry : Type 0
Registry = List Capability

unfoldable pub has_all : List String → List String → Bool
has_all have [] = true
has_all have (w ∷ want) = if not (contains have w) then false else has_all have want

-- The tests that end in `continue`, in their order.
unfoldable pub is_eligible : String → List String → Capability → Bool
is_eligible profile required rec =
    if not (rec.availability == availability_supported)
    then false
    else if contains rec.profile_deny profile
    then false
    else if not (is_empty rec.profile_allow) && not (contains rec.profile_allow profile)
    then false
    else has_all rec.features required

unfoldable pub select_eligible : String → List String → Registry → Registry
select_eligible profile required [] = []
select_eligible profile required (rec ∷ reg) =
    let rest = select_eligible profile required reg in
    if is_eligible profile required rec then rec ∷ rest else rest

-- sort.Slice is not stable: the order of records of the same provider is not modelled.
unfoldable pub eligible : String → List String → Registry → Registry
unfolding select_eligible
eligible profile required reg =
    sort_by (λ a b. str_ltb a.provider b.provider) (select_eligible profile required reg)

unfoldable pub is_sandbox_supported : Capability → Bool
is_sandbox_supported rec = rec.sandbox_eligibility == sandbox_supported

unfoldable pub keep_sandboxed : Registry → Registry
keep_sandboxed [] = []
keep_sandboxed (rec ∷ reg) =
    let rest = keep_sandboxed reg in if is_sandbox_supported rec then rec ∷ rest else rest

unfoldable pub eligible_for_sandbox : String → List String → Registry → Registry
eligible_for_sandbox profile required reg = keep_sandboxed (eligible profile required reg)

unfoldable pub find_provider : String → Registry → Option Capability
find_provider name [] = none
find_provider name (rec ∷ reg) = if rec.provider == name then some rec else find_provider name reg
