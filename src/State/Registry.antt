-- ===== src/State/Registry.antt =====
-- internal/state/registries.go, status.go and alias.go: the registries of phases, wait reasons and
-- terminal result codes, and the result code that is accepted under an old name.
use the_foundry.Prelude.{
  ◌≡◌, refl, Bool, true, false, String, Option, none, some, List, [], ◌∷◌, ◌==◌, if◌then◌else◌,
}

abbrev pub Status : Type 0
Status = String

abbrev pub Phase : Type 0
Phase = String

abbrev pub Reason : Type 0
Reason = String

abbrev pub ResultCode : Type 0
ResultCode = String

abbrev pub pending : Status
pending = "PENDING"

abbrev pub running : Status
running = "RUNNING"

abbrev pub waiting : Status
waiting = "WAITING"

abbrev pub succeeded : Status
succeeded = "SUCCEEDED"

abbrev pub failed : Status
failed = "FAILED"

abbrev pub cancelled : Status
cancelled = "CANCELLED"

abbrev pub phase_registry : List Phase
phase_registry =
    "intake" ∷ "context-gathering" ∷ "specification" ∷ "planning" ∷ "admission" ∷ "implementation"
    ∷ "verifying" ∷ "reviewing" ∷ "integrating" ∷ "deploying" ∷ "observing" ∷ "improving"
    ∷ "curating" ∷ []

abbrev pub reason_registry : List Reason
reason_registry =
    "provider-capacity" ∷ "provider-outage" ∷ "rate-reset" ∷ "subscription-reset" ∷ "human-approval"
    ∷ "human-command" ∷ "external-deployment" ∷ "budget" ∷ "security-hold" ∷ "blocked-dependency"
    ∷ "unforeseen-human-gate" ∷ "retry-backoff" ∷ []

-- The loop of `KnownPhase` and `KnownReason`.
unfoldable pub known_in : List String → String → Bool
known_in [] p = false
known_in (known ∷ rest) p = if known == p then true else known_in rest p

unfoldable pub known_phase : Phase → Bool
unfolding known_in
known_phase p = known_in phase_registry p

unfoldable pub known_reason : Reason → Bool
unfolding known_in
known_reason r = known_in reason_registry r

abbrev pub handoff_ready : ResultCode
handoff_ready = "TEN_X_BRANCH_HANDOFF_READY"

abbrev pub proven_blocked : ResultCode
proven_blocked = "PROVEN_BLOCKED"

abbrev pub result_code_registry : List (ResultCode × Status)
result_code_registry =
    (proven_blocked, failed)
    ∷ ("ADMISSION_REJECTED", failed)
    ∷ ("ROLLED_BACK", failed)
    ∷ (handoff_ready, succeeded)
    ∷ ("MISSION_TARGET_REACHED", succeeded)
    ∷ ("MISSION_NO_VIABLE_CANDIDATE", failed)
    ∷ ("MISSION_BUDGET_EXHAUSTED", failed)
    ∷ ("MISSION_TERMINATED_BY_POLICY", cancelled)
    ∷ ("MISSION_KILLED", cancelled)
    ∷ ("MISSION_MAINTENANCE_MODE", succeeded)
    ∷ ("OPPORTUNITY_REJECTED", succeeded)
    ∷ ("OPPORTUNITY_VALIDATION_REQUIRED", succeeded)
    ∷ ("OPPORTUNITY_VERDICT_MISSING", failed)
    ∷ ("OPPORTUNITY_VERDICT_UNREPRODUCIBLE", failed)
    ∷ []

unfoldable pub find_result_code : List (ResultCode × Status) → ResultCode → Option Status
find_result_code [] c = none
find_result_code ((code, status) ∷ rest) c =
    if code == c then some status else find_result_code rest c

unfoldable pub known_result_code : ResultCode → Option Status
unfolding find_result_code
known_result_code c = find_result_code result_code_registry c

abbrev pub deprecated_alias : String
deprecated_alias = "TEN_X_BRANCHES_READY"

-- What is registered is passed on under its own name.
unfoldable pub normalize_known : String → Option Status → Option ResultCode
normalize_known s none = none
normalize_known s (some status) = some s

unfoldable pub normalize_result_code : String → Option ResultCode
unfolding normalize_known
normalize_result_code s =
    if s == deprecated_alias then some handoff_ready else normalize_known s (known_result_code s)

result_codes_run :
    (normalize_result_code "TEN_X_BRANCHES_READY" ≡ some handoff_ready)
    × (known_result_code "MISSION_KILLED" ≡ some cancelled)
    × (known_reason "budget" ≡ true)
    × (known_phase "budget" ≡ false)
unfolding normalize_result_code known_result_code known_reason known_phase
result_codes_run = (refl, refl, refl, refl)
