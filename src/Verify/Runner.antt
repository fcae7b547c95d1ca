-- ===== src/Verify/Runner.antt =====
-- internal/verify/allowlist.go and runner.go: which commands may run, and the loop that runs them.
-- Parameters: `strings.Fields`, `filepath.Rel` of two cleaned paths (`none` is its error), and
-- `executor.RunSubprocess`, which acts on a world of its own; `none` is its nil error.
use the_foundry.Prelude.{
  ℤ, negsuc, Bool, true, false, not, ◌&&◌, ◌||◌, is_zero, String, Option, none, some, List, [], ◌∷◌,
  ◌==◌, contains, if◌then◌else◌,
}
use text.Mathlib.Text.{starts_with}
use the_foundry.Verify.{CommandRecord}

pub record Allowlist : Type 0 where
  pub commands : List String
  pub scripts_dir : String

module _ (rel : String → String → Option String) where
  -- rel != ".." && !strings.HasPrefix(rel, "../")
  unfoldable pub stays_below : Option String → Bool
  stays_below none = false
  stays_below (some r) = not (r == "..") && not (starts_with r "../")

  unfoldable pub is_allowed_script : Allowlist → String → Bool
  unfolding stays_below
  is_allowed_script a script_path =
      if a.scripts_dir == "" then false else stays_below (rel a.scripts_dir script_path)

  -- `true` is the source's nil error.
  unfoldable pub check : Allowlist → List String → Bool
  check a [] = false
  check a (head ∷ []) = contains a.commands head
  check a (head ∷ script ∷ rest) =
      contains a.commands head || (head == "bash" && is_allowed_script a script)

pub record ExecResult : Type 0 where
  pub exit_code : ℤ
  pub timed_out : Bool

abbrev pub refused : CommandRecord
refused = record { exit_code = negsuc 0; timed_out = false; policy_violation = true }

abbrev pub recorded : ExecResult → CommandRecord
recorded r = record { exit_code = r.exit_code; timed_out = r.timed_out; policy_violation = false }

-- The records so far, whether the infrastructure failed, and the world that is left.
pub record Outcome (W : Type 0) : Type 0 where
  pub records : List CommandRecord
  pub failed : Bool
  pub world : W

module _ {W : Type 0} (allowed : String → Bool) (exec : String → W → ExecResult × Bool × W) where
  -- One round of the loop after the command has run; `rest` is the remaining rounds.
  unfoldable pub after_exec : ExecResult × Bool × W → (W → Outcome W) → Outcome W
  after_exec (result, run_failed, w) rest =
      if result.timed_out
      then record { records = recorded result ∷ []; failed = false; world = w }
      else if run_failed
      then record { records = recorded result ∷ []; failed = true; world = w }
      else if not (is_zero result.exit_code)
      then record { records = recorded result ∷ []; failed = false; world = w }
      else (let later = rest w in record later { records = recorded result ∷ later.records })

  unfoldable pub run : List String → W → Outcome W
  run [] w = record { records = []; failed = false; world = w }
  run (cmd ∷ cmds) w =
      if not (allowed cmd)
      then record { records = refused ∷ []; failed = false; world = w }
      else after_exec (exec cmd w) (λ w'. run cmds w')

-- One run of `Runner.Run`: each command line is split by `fields` and checked against the allowlist.
abbrev pub permitted :
    (String → String → Option String) → (String → List String) → Allowlist → String → Bool
permitted rel fields a cmd = check rel a (fields cmd)

unfoldable pub run_commands :
    {W : Type 0}
    → (String → String → Option String)
    → (String → List String)
    → Allowlist
    → (String → W → ExecResult × Bool × W)
    → List String
    → W
    → Outcome W
run_commands rel fields a exec cmds w = run (permitted rel fields a) exec cmds w
