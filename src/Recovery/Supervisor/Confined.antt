-- ===== src/Recovery/Supervisor/Confined.antt =====
-- What one scan of the supervisor reports, and what it may touch.
use the_foundry.Prelude.{
  ℕ, ◌≡◌, ◌≢◌, ◌⊎◌, ap, inl, inr, refl, Bool, true, false, String, List, [], ◌∷◌, arith, All,
  Bool-cases,
}
use the_foundry.Recovery.Liveness.{
  Condition, healthy, dead_worker, stuck_activity, missing_wake, poisoned_task, infinite_retry,
  orphaned, WorkflowSnapshot, classify,
}
use the_foundry.Recovery.Supervisor.{
  Event, Action, repaired, escalated, repair_failed, escalation_failed, ScanResult, Settings,
  repairable, escalation, escalate, handle, scan_from,
}

-- What a reset may repair.
abbrev pub IsRepairable : Condition → Type 0
IsRepairable cond = (cond ≡ dead_worker) ⊎ (cond ≡ stuck_activity)

repairable-cases :
    (cond : Condition)
    → ((repairable cond ≡ true) × IsRepairable cond)
      ⊎ ((repairable cond ≡ false) × (IsRepairable cond → ⊥))
unfolding repairable
repairable-cases dead_worker = inl (refl, inl refl)
repairable-cases stuck_activity = inl (refl, inr refl)
repairable-cases healthy = inr (refl, λ h. elim h [ inl e ↦ cc | inr e ↦ cc ])
repairable-cases missing_wake = inr (refl, λ h. elim h [ inl e ↦ cc | inr e ↦ cc ])
repairable-cases poisoned_task = inr (refl, λ h. elim h [ inl e ↦ cc | inr e ↦ cc ])
repairable-cases infinite_retry = inr (refl, λ h. elim h [ inl e ↦ cc | inr e ↦ cc ])

orphaned-true : (cond : Condition) → orphaned cond ≡ true → cond ≢ healthy
unfolding orphaned
orphaned-true cond e h = cc (e, ap orphaned h)

orphaned-false : (cond : Condition) → orphaned cond ≡ false → cond ≡ healthy
unfolding orphaned
orphaned-false healthy e = refl
orphaned-false dead_worker e = cc
orphaned-false stuck_activity e = cc
orphaned-false missing_wake e = cc
orphaned-false poisoned_task e = cc
orphaned-false infinite_retry e = cc

abbrev pub result : WorkflowSnapshot → Condition → Action → Bool → ScanResult
result snap cond action failed = record {
  workflow_id = snap.workflow_id;
  condition = cond;
  action = action;
  failed = failed;
}

module _ {W : Type 0} (clock : W → ℕ) (reset : String → W → Bool × W)
    (ingest : Event → W → Bool × W) (s : Settings) where
  -- The notification of an orphan, and the world after a reset of its workflow.
  abbrev pub told : WorkflowSnapshot → Condition → W → Bool × W
  told snap cond w = ingest (escalation clock reset ingest s snap cond w) w

  abbrev pub after_reset : WorkflowSnapshot → W → W
  after_reset snap w = (reset snap.workflow_id w).1

  -- What is reported of one orphan, by what the reset of its workflow and the notification answer: the
  -- world before, the result, and the world after.
  pub data Handled (snap : WorkflowSnapshot) (cond : Condition) : W → ScanResult → W → Type 0 where
    reset_done :
        (w : W)
        → IsRepairable cond
        → (reset snap.workflow_id w).0 ≡ true
        → Handled snap cond w (result snap cond repaired false) (after_reset snap w)
    reset_refused :
        (w : W)
        → IsRepairable cond
        → (reset snap.workflow_id w).0 ≡ false
        → (told snap cond (after_reset snap w)).0 ≡ true
        → Handled snap cond w
            (result snap cond repair_failed false)
            (told snap cond (after_reset snap w)).1
    reset_refused_unheard :
        (w : W)
        → IsRepairable cond
        → (reset snap.workflow_id w).0 ≡ false
        → (told snap cond (after_reset snap w)).0 ≡ false
        → Handled snap cond w
            (result snap cond escalation_failed true)
            (told snap cond (after_reset snap w)).1
    told_operator :
        (w : W)
        → (IsRepairable cond → ⊥)
        → (told snap cond w).0 ≡ true
        → Handled snap cond w (result snap cond escalated false) (told snap cond w).1
    unheard :
        (w : W)
        → (IsRepairable cond → ⊥)
        → (told snap cond w).0 ≡ false
        → Handled snap cond w (result snap cond escalation_failed true) (told snap cond w).1

  -- A whole scan: a healthy workflow is passed over, and an orphan is handled before the next one.
  pub data Scanned (now : ℕ) : List WorkflowSnapshot → W → List ScanResult → W → Type 0 where
    finished : (w : W) → Scanned now [] w [] w
    passed_over :
        (snap : WorkflowSnapshot) (snaps : List WorkflowSnapshot) (w w' : W) (rs : List ScanResult)
        → classify now snap s.config ≡ healthy
        → Scanned now snaps w rs w'
        → Scanned now (snap ∷ snaps) w rs w'
    handled :
        (snap : WorkflowSnapshot) (snaps : List WorkflowSnapshot) (w v w' : W) (r : ScanResult)
        (rs : List ScanResult)
        → classify now snap s.config ≢ healthy
        → Handled snap (classify now snap s.config) w r v
        → Scanned now snaps v rs w'
        → Scanned now (snap ∷ snaps) w (r ∷ rs) w'

  handle-Handled :
      (snap : WorkflowSnapshot) (cond : Condition) (w : W)
      → let h = handle clock reset ingest s snap cond w in Handled snap cond w h.0 h.1
  unfolding handle escalate
  handle-Handled snap cond w = elim (repairable-cases cond) [
    | inl (may, repair) ↦
        let v = (reset snap.workflow_id w).1 in
        elim (Bool-cases (reset snap.workflow_id w).0) [
          | inl done ↦ rw (may, done) (reset_done w repair done)
          | inr refused ↦
              elim (Bool-cases (ingest (escalation clock reset ingest s snap cond v) v).0) [
                | inl sent ↦ rw (may, refused, sent) (reset_refused w repair refused sent)
                | inr lost ↦ rw (may, refused, lost) (reset_refused_unheard w repair refused lost)
              ]
        ]
    | inr (may_not, operator) ↦
        elim (Bool-cases (ingest (escalation clock reset ingest s snap cond w) w).0) [
          | inl sent ↦ rw (may_not, sent) (told_operator w operator sent)
          | inr lost ↦ rw (may_not, lost) (unheard w operator lost)
        ]
  ]

  -- A scan reports each orphan in the order of the snapshots, and no healthy workflow: as repaired exactly
  -- if it is a dead worker or a stuck activity whose reset succeeds, else it escalates it, after the reset
  -- where one was refused, and a notification that fails is an error reported as a failed escalation.
  pub scan_results :
      (now : ℕ) (snaps : List WorkflowSnapshot) (w : W)
      → let scan = scan_from clock reset ingest s now snaps w in Scanned now snaps w scan.0 scan.1
  unfolding scan_from
  scan_results now [] w = finished w
  scan_results now (snap ∷ snaps) w =
      let cond = classify now snap s.config in
      elim (Bool-cases (orphaned cond)) [
        | inl orphan ↦
            let v = (handle clock reset ingest s snap cond w).1 in
            rw orphan (
              handled snap snaps w v _ _ _ (orphaned-true cond orphan) (handle-Handled snap cond w)
                (scan_results now snaps v))
        | inr live ↦
            rw live
              (passed_over snap snaps w _ _ (orphaned-false cond live) (scan_results now snaps w))
      ]

  world-escalate :
      (snap : WorkflowSnapshot) (cond : Condition) (a : Action) (w : W)
      → (escalate clock reset ingest s snap cond a w).1
        ≡ (ingest (escalation clock reset ingest s snap cond w) w).1
  unfolding escalate
  world-escalate snap cond a w = ground arith

  -- What a scan may do to the world, for a property `P` of it that every notification keeps.
  module _ {P : W → Type 0} (notified : (ev : Event) (w : W) → P w → P (ingest ev w).1) where
    handle-confined :
        (snap : WorkflowSnapshot) (cond : Condition) (w : W)
        → (repairable cond ≡ true → (v : W) → P v → P (reset snap.workflow_id v).1)
        → P w
        → P (handle clock reset ingest s snap cond w).1
    unfolding handle
    handle-confined snap cond w may h = elim (Bool-cases (repairable cond)) [
      | inr no_repair ↦ rw (no_repair, world-escalate snap cond escalated w) (notified _ w h)
      | inl may_repair ↦
          let v = (reset snap.workflow_id w).1 in
          let kept : P v = may may_repair w h in
          elim (Bool-cases (reset snap.workflow_id w).0) [
            | inl done ↦ rw (may_repair, done) kept
            | inr refused ↦
                rw (may_repair, refused, world-escalate snap cond repair_failed v)
                  (notified _ v kept)
          ]
    ]

    -- A scan escalates anything, and resets only workflows that a listed snapshot shows with a dead
    -- worker or a stuck activity: a property of the world that every notification keeps, and that
    -- those resets keep, is kept by the scan.
    pub scan_confined :
        (now : ℕ) (snaps : List WorkflowSnapshot) (w : W)
        → All
            (λ snap.
              repairable (classify now snap s.config) ≡ true
              → (v : W) → P v
              → P (reset snap.workflow_id v).1)
            snaps
        → P w
        → P (scan_from clock reset ingest s now snaps w).1
    unfolding scan_from
    scan_confined now [] w may h = h
    scan_confined now (snap ∷ snaps) w may h =
        let cond = classify now snap s.config in
        elim (Bool-cases (orphaned cond)) [
          | inl orphan ↦ rw orphan (
              scan_confined now snaps (handle clock reset ingest s snap cond w).1 may.1
                (handle-confined snap cond w may.0 h))
          | inr live ↦ rw live (scan_confined now snaps w may.1 h)
        ]
