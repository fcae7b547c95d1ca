-- ===== src/State.antt =====
-- internal/state: statuses, registries and the validation of one transition.
-- `Status`, `Reason` and `ResultCode` are string types in the source, so any text may stand where one
-- is expected; the unset reason and result code are "".
pub mod Registry
pub mod Graph
pub mod Codes
use the_foundry.Prelude.{
  Bool, true, false, not, ◌&&◌, ◌||◌, String, Option, none, some, List, [], ◌∷◌, ◌==◌, lookup,
  lookup_or, if◌then◌else◌,
}
use the_foundry.State.Registry.{
  Status, Reason, ResultCode, running, waiting, succeeded, failed, cancelled, pending,
  known_result_code,
}

-- The fields of a transition record that its validation reads.
pub record Transition : Type 0 where
  pub reason : Reason
  pub result_code : ResultCode

unfoldable pub is_terminal : Status → Bool
is_terminal s = s == succeeded || s == failed || s == cancelled

-- A missing key reads as the zero value of the inner map, which answers `false`.
abbrev pub legal_transitions : List (String × List (String × Bool))
legal_transitions =
    (pending, (running, true) ∷ [])
    ∷ (running, (waiting, true) ∷ (succeeded, true) ∷ (failed, true) ∷ (cancelled, true) ∷ [])
    ∷ (waiting, (running, true) ∷ (cancelled, true) ∷ (failed, true) ∷ [])
    ∷ []

unfoldable pub is_legal : Status → Status → Bool
unfolding lookup lookup_or
is_legal from to = lookup_or false to (lookup_or [] from legal_transitions)

pub data Error : Type 0 where
  illegal_transition invariant_violation : Error

-- The `switch` on the target status.
unfoldable pub check_reason : Transition → Status → Option Error
check_reason t to =
    if to == waiting
    then (if t.reason == "" then some invariant_violation else none)
    else if to == succeeded
    then (if not (t.reason == "") then some invariant_violation else none)
    else none

unfoldable pub check_result_status : Option Status → Status → Option Error
check_result_status none to = some invariant_violation
check_result_status (some status) to = if not (status == to) then some invariant_violation else none

unfoldable pub check_result : Transition → Status → Option Error
unfolding check_result_status
check_result t to =
    if not (t.result_code == "")
    then check_result_status (known_result_code t.result_code) to
    else none

unfoldable pub or_else : Option Error → Option Error → Option Error
or_else none next = next
or_else (some e) next = some e

-- `none` is the source's nil error.
unfoldable pub validate : Transition → Status → Status → Option Error
unfolding or_else
validate t from to =
    if is_terminal from
    then some illegal_transition
    else if not (is_legal from to)
    then some illegal_transition
    else or_else (check_reason t to) (check_result t to)
