-- ===== src/Verify/Honest.antt =====
-- Runner.Run followed by Evaluate: what a pass proves about the commands that a task declared.
use the_foundry.Prelude.{
  Option, ℕ, ◌≡◌, ◌≢◌, ◌↔◌, refl, Bool, true, false, String, List, [], ◌∷◌, arith, is_zero, inl,
  inr, Bool-cases, All,
}
use the_foundry.Verify.{CommandRecord, evaluate}
use the_foundry.Verify.Verdict.{IsClean, evaluate-pass}
use the_foundry.Verify.Runner.{Allowlist, ExecResult, after_exec, run, permitted, run_commands}

module _ {W : Type 0} (allowed : String → Bool) (exec : String → W → ExecResult × Bool × W) where
  -- Every command is allowlisted and was executed, each in the world that the one before left, in
  -- time, with no infrastructure fault and with exit code 0.
  abbrev pub AllRan : List String → W → Type 0
  AllRan [] w = Unit
  AllRan (cmd ∷ cmds) w =
      (allowed cmd ≡ true)
      × ((exec cmd w).0.timed_out ≡ false)
      × ((exec cmd w).1 ≡ false)
      × (is_zero (exec cmd w).0.exit_code ≡ true)
      × AllRan cmds (exec cmd w).2

  run-IsClean :
      (cmds : List String) (w : W)
      → AllRan cmds w
      → ((run allowed exec cmds w).failed ≡ false) × All IsClean (run allowed exec cmds w).records
  unfolding run after_exec
  run-IsClean [] w h = (refl, tt)
  run-IsClean (cmd ∷ cmds) w h =
      let (f, c) = run-IsClean cmds (exec cmd w).2 h.4 in
      rw (h.0, h.1, h.2, h.3) (f, (record { allowed = refl; in_time = refl; exit_zero = h.3 }, c))

  clean-run :
      (cmds : List String) (w : W)
      → (run allowed exec cmds w).failed ≡ false
      → All IsClean (run allowed exec cmds w).records
      → AllRan cmds w
  unfolding run after_exec
  clean-run [] w f c = tt
  clean-run (cmd ∷ cmds) w f c = elim (Bool-cases (allowed cmd)) [
    | inl a ↦ elim (Bool-cases (exec cmd w).0.timed_out) [
      | inl t ↦ cc ((rw (a, t) at c).0.in_time)
      | inr t ↦ elim (Bool-cases (exec cmd w).1) [
        | inl i ↦ cc (rw (a, t, i) at f)
        | inr i ↦ elim (Bool-cases (is_zero (exec cmd w).0.exit_code)) [
          | inl z ↦ (
            a,
            t,
            i,
            z,
            clean-run cmds (exec cmd w).2 (rw (a, t, i, z) at f) (rw (a, t, i, z) at c).1,
          )
          | inr z ↦ cc ((rw (a, t, i, z) at c).0.exit_zero)
        ]
      ]
    ]
    | inr n ↦ cc ((rw n at c).0.allowed)
  ]

  run-ne-nil : (cmds : List String) (w : W) → cmds ≢ [] → (run allowed exec cmds w).records ≢ []
  unfolding run after_exec
  run-ne-nil [] w h e = h refl
  run-ne-nil (cmd ∷ cmds) w h e = ground arith

  honest_run :
      (cmds : List String) (w : W) (attempt : ℕ)
      → let o = run allowed exec cmds w in
        ((o.failed ≡ false) × ((evaluate o.records attempt).0 ≡ true))
        ↔ ((cmds ≢ []) × AllRan cmds w)
  honest_run cmds w attempt = (sound, complete)
    where
      records : List CommandRecord
      records = (run allowed exec cmds w).records

      sound :
          ((run allowed exec cmds w).failed ≡ false) × ((evaluate records attempt).0 ≡ true)
          → (cmds ≢ []) × AllRan cmds w
      sound h =
          let (some_ran, clean) = (evaluate-pass records attempt).0 h.1 in
          (λ e. some_ran (rw e (unfold run in refl)), clean-run cmds w h.0 clean)

      complete :
          (cmds ≢ []) × AllRan cmds w
          → ((run allowed exec cmds w).failed ≡ false) × ((evaluate records attempt).0 ≡ true)
      complete h =
          let (f, c) = run-IsClean cmds w h.1 in
          (f, (evaluate-pass records attempt).1 (run-ne-nil cmds w h.0, c))

-- Run and Evaluate together: the runner reports no fault and the verdict on its records is a pass
-- exactly when the task declared at least one command and every one of them is allowlisted and ran,
-- in order, in time, with no infrastructure fault and with exit code 0.
pub honest_completion :
    {W : Type 0} (rel : String → String → Option String) (fields : String → List String)
    (a : Allowlist) (exec : String → W → ExecResult × Bool × W) (cmds : List String) (w : W)
    (attempt : ℕ)
    → let o = run_commands rel fields a exec cmds w in
      ((o.failed ≡ false) × ((evaluate o.records attempt).0 ≡ true))
      ↔ ((cmds ≢ []) × AllRan (permitted rel fields a) exec cmds w)
unfolding run_commands
honest_completion rel fields a exec cmds w attempt =
    honest_run (permitted rel fields a) exec cmds w attempt
