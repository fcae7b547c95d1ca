-- ===== src/Recovery/Liveness.antt =====
-- Classify of internal/recovery/supervisor.go: the liveness condition of a workflow snapshot.
-- Instants are nanoseconds since Go's zero time, so 0 is the zero time; `now.Sub t` is not negative
-- where it is compared, and a difference that Go would saturate is above every configured limit.
use the_foundry.Prelude.{
  ℕ, ◌-◌, ◌≡◌, refl, Bool, true, false, not, ◌&&◌, ◌||◌, String, Option, none, some, List, [], ◌∷◌,
  ◌==◌, arith, ◌≤◌, ◌<◌, ◌≢◌, ◌↔◌, ◌⊎◌, inl, inr, eq_iff, Option-cases, Bool-cases, ltb→lt, ltb,
  eqb, contains, lookup_or, if◌then◌else◌,
}
use the_foundry.Verify.{retryable}
use the_foundry.State.Registry.{Status, Reason, running, waiting}
use the_foundry.Recovery.Signature.{FailureSignature, repeats, IsVaried, repeats-IsVaried}
use the_foundry.Recovery.Retry.{default_budgets}

pub data Condition : Type 0 where
  healthy dead_worker stuck_activity missing_wake poisoned_task infinite_retry : Condition

unfoldable pub orphaned : Condition → Bool
orphaned healthy = false
orphaned _ = true

abbrev pub event_subscribed_reasons : List Reason
event_subscribed_reasons =
    "budget" ∷ "human-approval" ∷ "human-command" ∷ "external-deployment" ∷ "security-hold"
    ∷ "blocked-dependency" ∷ "unforeseen-human-gate" ∷ []

pub record WorkflowSnapshot : Type 0 where
  pub workflow_id : String
  pub status : Status
  pub reason : Reason
  pub wake_at : Option ℕ
  pub attempt : ℕ
  pub last_heartbeat : ℕ
  pub last_progress_at : ℕ
  pub recent_failures : List FailureSignature

pub record Config : Type 0 where
  pub stale_after : ℕ
  pub no_progress_after : ℕ
  pub retry_budget : ℕ

unfoldable pub stale_limit : Config → ℕ
stale_limit c = if ltb 0 c.stale_after then c.stale_after else 300_000_000_000

unfoldable pub no_progress_limit : Config → ℕ
no_progress_limit c = if ltb 0 c.no_progress_after then c.no_progress_after else 1_800_000_000_000

unfoldable pub retry_limit : Config → ℕ
unfolding lookup_or
retry_limit c =
    if ltb 0 c.retry_budget then c.retry_budget else lookup_or 0 retryable default_budgets

unfoldable pub wakes_after : ℕ → Option ℕ → Bool
wakes_after now none = false
wakes_after now (some at) = ltb now at

unfoldable pub classify_running : ℕ → WorkflowSnapshot → Config → Condition
classify_running now snap cfg =
    if eqb snap.last_heartbeat 0 || ltb (stale_limit cfg) (now - snap.last_heartbeat)
    then dead_worker
    else if repeats snap.recent_failures
    then poisoned_task
    else if ltb (retry_limit cfg) snap.attempt
    then infinite_retry
    else if not (eqb snap.last_progress_at 0)
        && ltb (no_progress_limit cfg) (now - snap.last_progress_at)
    then stuck_activity
    else healthy

unfoldable pub classify_waiting : ℕ → WorkflowSnapshot → Condition
unfolding wakes_after
classify_waiting now snap =
    if wakes_after now snap.wake_at
    then healthy
    else if contains event_subscribed_reasons snap.reason
    then healthy
    else missing_wake

unfoldable pub classify : ℕ → WorkflowSnapshot → Config → Condition
unfolding classify_running classify_waiting
classify now snap cfg =
    if snap.status == running
    then classify_running now snap cfg
    else if snap.status == waiting
    then classify_waiting now snap
    else healthy

-- The liveness invariants: RUNNING with a fresh heartbeat, no repeated failure, attempts within the
-- budget and recent progress where any is recorded.
pub record IsLiveRunning (now : ℕ) (snap : WorkflowSnapshot) (cfg : Config) : Type 0 where
  pub seen : snap.last_heartbeat ≢ 0
  pub fresh : now - snap.last_heartbeat ≤ stale_limit cfg
  pub varied : IsVaried snap.recent_failures
  pub in_budget : snap.attempt ≤ retry_limit cfg
  pub progressing :
      (snap.last_progress_at ≡ 0) ⊎ (now - snap.last_progress_at ≤ no_progress_limit cfg)

-- WAITING with a wake time that lies ahead, or for a registered event or a human gate.
abbrev pub IsLiveWaiting : ℕ → WorkflowSnapshot → Type 0
IsLiveWaiting now snap =
    ((at : ℕ) × (snap.wake_at ≡ some at) × (now < at))
    ⊎ (contains
          ("human-approval" ∷ "human-command" ∷ "external-deployment" ∷ "budget" ∷ "security-hold"
            ∷ "blocked-dependency" ∷ "unforeseen-human-gate" ∷ [])
          snap.reason
        ≡ true)

running_live :
    (now : ℕ) (snap : WorkflowSnapshot) (cfg : Config)
    → (classify_running now snap cfg ≡ healthy) ↔ IsLiveRunning now snap cfg
unfolding classify_running
running_live now snap cfg =
    let varied = repeats-IsVaried snap.recent_failures in
    (
      λ h. record {
        seen = ground arith;
        fresh = ground arith;
        varied = varied.0 (ground arith);
        in_budget = ground arith;
        progressing = ground arith;
      },
      λ l.
          let differ : repeats snap.recent_failures ≡ false = varied.1 l.varied in
          ground (arith, differ, l.seen, l.fresh, l.in_budget, l.progressing),
    )

waiting_live :
    (now : ℕ) (snap : WorkflowSnapshot)
    → (classify_waiting now snap ≡ healthy) ↔ IsLiveWaiting now snap
unfolding classify_waiting wakes_after
waiting_live now snap = (λ h. live h, λ l. ground arith)
  where
    live : classify_waiting now snap ≡ healthy → IsLiveWaiting now snap
    live h = elim (Option-cases snap.wake_at) [
      | inl none_set ↦ inr (ground arith)
      | inr (at, set) ↦ elim (Bool-cases (ltb now at)) [
        | inl ahead ↦ inl (at, set, ltb→lt now at ahead)
        | inr past ↦ inr (ground arith)
      ]
    ]

running≢waiting : {s : Status} → s ≡ running → s ≡ waiting → ⊥
running≢waiting p q = grind (arith, eq_iff running waiting)

-- A workflow is healthy exactly when it satisfies the liveness invariant of its status; one that is
-- neither RUNNING nor WAITING always is.
pub classify_healthy :
    (now : ℕ) (snap : WorkflowSnapshot) (cfg : Config)
    → (classify now snap cfg ≡ healthy) ↔ (
        (snap.status ≡ running → IsLiveRunning now snap cfg)
        × (snap.status ≡ waiting → IsLiveWaiting now snap))
unfolding classify
classify_healthy now snap cfg = elim (Bool-cases (snap.status == running)) [
  | inl r ↦
      let is_running : snap.status ≡ running = (eq_iff snap.status running).0 r in
      rw r (
        λ h. (λ _. (running_live now snap cfg).0 h, λ w. absurd (running≢waiting is_running w)),
        λ l. (running_live now snap cfg).1 (l.0 is_running),
      )
  | inr nr ↦
      let not_running : snap.status ≢ running = λ e. (cc (nr, (eq_iff snap.status running).1 e)) in
      elim (Bool-cases (snap.status == waiting)) [
        | inl w ↦
            rw (nr, w)
              (
                λ h. (λ p. absurd (not_running p), λ _. (waiting_live now snap).0 h),
                λ l. (waiting_live now snap).1 (l.1 ((eq_iff snap.status waiting).0 w)),
              )
        | inr nw ↦
            rw (nr, nw)
              (
                λ h. (λ p. absurd (not_running p), λ p. cc (nw, (eq_iff snap.status waiting).1 p)),
                λ l. refl,
              )
      ]
]
