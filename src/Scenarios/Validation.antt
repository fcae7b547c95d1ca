-- ===== src/Scenarios/Validation.antt =====
-- Validation runs of internal/verify at concrete inputs.
use the_foundry.Prelude.{
  ℕ, suc, ◌≢◌, refl, pos, Bool, false, String, Option, none, if◌then◌else◌, List, [], ◌∷◌, ◌==◌,
}
use the_foundry.Verify.{evaluate, scan}
use the_foundry.Verify.Runner.{
  Allowlist, ExecResult, check, run, after_exec, permitted, run_commands,
}
use the_foundry.Verify.Honest.{AllRan, honest_completion}

abbrev declared : List String
declared = "go test ./..." ∷ []

abbrev allowlist : Allowlist
allowlist = record { commands = "go" ∷ []; scripts_dir = "" }

-- Stand-ins: no path lies below another, and the one line that is split.
abbrev no_rel : String → String → Option String
no_rel base target = none

abbrev split : String → List String
split line = if line == "go test ./..." then "go" ∷ "test" ∷ "./..." ∷ [] else line ∷ []

-- A world that counts the commands that ran; every one succeeds.
abbrev succeeding : String → ℕ → ExecResult × Bool × ℕ
succeeding cmd n = (record { exit_code = pos 0; timed_out = false }, false, suc n)

honest_completion_example :
    (declared ≢ []) × AllRan (permitted no_rel split allowlist) succeeding declared 0
unfolding run_commands run after_exec evaluate scan check
honest_completion_example =
    (honest_completion no_rel split allowlist succeeding declared 0 1).0 (refl, refl)
