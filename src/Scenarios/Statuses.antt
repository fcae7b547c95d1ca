-- ===== src/Scenarios/Statuses.antt =====
-- Transition records and result codes of internal/state at concrete inputs.
use the_foundry.Prelude.{refl}
use the_foundry.State.{
  Transition, validate, is_terminal, is_legal, check_reason, check_result, check_result_status,
  or_else,
}
use the_foundry.State.Registry.{
  pending, running, waiting, succeeded, known_result_code, handoff_ready,
}
use the_foundry.State.Graph.{IsAccepted, History, here, next, validate-IsAccepted}

abbrev parking : Transition
parking = record { reason = "provider-limit"; result_code = "" }

abbrev plain : Transition
plain = record { reason = ""; result_code = "" }

abbrev handoff : Transition
handoff = record { reason = ""; result_code = handoff_ready }

validate-IsAccepted_example : IsAccepted parking running waiting
unfolding validate is_terminal is_legal check_reason check_result check_result_status or_else
validate-IsAccepted_example = (validate-IsAccepted parking running waiting).0 refl

abbrev started : History pending running
unfolding validate is_terminal is_legal check_reason check_result check_result_status or_else
started = next plain here refl

abbrev handed_over : History pending succeeded
unfolding validate is_terminal is_legal check_reason check_result check_result_status or_else
    known_result_code
handed_over = next handoff started refl
