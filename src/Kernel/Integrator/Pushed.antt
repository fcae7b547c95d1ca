-- ===== src/Kernel/Integrator/Pushed.antt =====
-- What a push does, and when drift is given up.
use the_foundry.Prelude.{
  ℕ, ◌+◌, ◌≤◌, ◌<◌, ◌≡◌, ◌≢◌, ◌⊎◌, inl, inr, refl, ap, Bool, true, false, ◌==◌, eq_iff, String,
  Option, none, some, List, [], ◌∷◌, arith, leb, length, ==-false→ne, Bool-cases,
}
use mathlib.Core.Option.{some-injective}
use the_foundry.State.Registry.{proven_blocked}
use the_foundry.Kernel.Integrator.{
  Item, receipt_of, acquire_lease, read_head, cas_push, record_receipt, release_lease, Push, pushed,
  stale, other_error, process_item, RebasePolicy, clean_only, no_rebase, other_policy, DriftConfig,
  Resolution, requeued, blocked, evaluate_policy, evaluate_drift,
}

-- An item is requeued exactly when the policy rebases, the rebase is clean and a retry is left, and then
-- its count is one more, at most the maximum; else its count stays and it is a proven block.
pub evaluate_drift-requeued :
    (config : DriftConfig) (retry_count : ℕ) (rebase_clean : Bool)
    → let r = evaluate_drift config retry_count rebase_clean in
      ((config.policy ≡ clean_only)
        × (rebase_clean ≡ true)
        × (retry_count < config.max_retries)
        × (r.resolution ≡ requeued)
        × (r.retry_count ≡ retry_count + 1))
      ⊎ (((config.policy ≡ clean_only) → (rebase_clean ≡ true) → (config.max_retries ≤ retry_count))
          × (r.resolution ≡ blocked)
          × (r.retry_count ≡ retry_count)
          × (r.result_code ≡ proven_blocked))
unfolding evaluate_drift
evaluate_drift-requeued config retry_count rebase_clean =
    over config.policy config.max_retries retry_count rebase_clean
  where
    over :
        (policy : RebasePolicy) (max retry_count : ℕ) (clean : Bool)
        → let r = evaluate_policy policy max retry_count clean in
          ((policy ≡ clean_only)
            × (clean ≡ true)
            × (retry_count < max)
            × (r.resolution ≡ requeued)
            × (r.retry_count ≡ retry_count + 1))
          ⊎ (((policy ≡ clean_only) → (clean ≡ true) → (max ≤ retry_count))
              × (r.resolution ≡ blocked)
              × (r.retry_count ≡ retry_count)
              × (r.result_code ≡ proven_blocked))
    over no_rebase max retry_count clean = inr ((λ e. cc), refl, refl, refl)
    over (other_policy p) max retry_count clean = inr ((λ e. cc), refl, refl, refl)
    over clean_only max retry_count false = inr ((λ _ e. cc), refl, refl, refl)
    over clean_only max retry_count true = elim (Bool-cases (leb max retry_count)) [
      | inl out ↦ rw out (inr ((λ _ _. ground (arith, out)), refl, refl, refl))
      | inr left ↦ rw left (inl (refl, refl, ground (arith, left), refl, refl))
    ]

other_base : (head base : String) → (head == base) ≡ false → some head ≢ some base
other_base head base moved e = ==-false→ne head base moved (some-injective head base e)

-- Where the lease is acquired: the branch is pushed to, from the base that the item expects and with the
-- lease's token, exactly if its head was read and is that base; a receipt is returned exactly if that
-- push succeeds, and is then recorded; and the lease is released last, whatever happened. Where it is
-- not acquired, nothing else is called.
pub process_item-calls :
    (item : Item) (lease head : Option String) (push : Push) (now : ℕ) (recorded : Bool)
    → let p = process_item item lease head push now recorded in
      let start = acquire_lease item.branch item.id in
      let attempt = cas_push item.branch item.expected_base item.commits in
      ((lease ≡ none) × (p.calls ≡ start ∷ []) × (p.receipt ≡ none))
      ⊎ ((token : String) × (lease ≡ some token)
          × (((head ≢ some item.expected_base)
                × (p.receipt ≡ none)
                × (p.calls ≡ start ∷ read_head item.branch ∷ release_lease item.branch token ∷ []))
              ⊎ ((head ≡ some item.expected_base)
                  × (((after : String) × (push ≡ pushed after)
                        × (p.receipt ≡ some (receipt_of item after now))
                        × (p.calls
                            ≡ start
                              ∷ read_head item.branch
                              ∷ attempt token
                              ∷ record_receipt (receipt_of item after now)
                              ∷ release_lease item.branch token
                              ∷ []))
                      ⊎ (((after : String) → push ≢ pushed after)
                          × (p.receipt ≡ none)
                          × (p.calls
                              ≡ start
                                ∷ read_head item.branch
                                ∷ attempt token
                                ∷ release_lease item.branch token
                                ∷ []))))))
unfolding process_item
process_item-calls item none head push now recorded = inl (refl, refl, refl)
process_item-calls item (some token) none push now recorded =
    inr (token, refl, inl ((λ e. cc), refl, refl))
process_item-calls item (some token) (some head) (pushed after) now recorded =
    elim (Bool-cases (head == item.expected_base)) [
      | inl same ↦
          let base : some head ≡ some item.expected_base =
            ap some ((eq_iff head item.expected_base).0 same) in
          rw same (inr (token, refl, inr (base, inl (after, refl, refl, refl))))
      | inr moved ↦
          rw moved (inr (token, refl, inl ((other_base head item.expected_base moved), refl, refl)))
    ]
process_item-calls item (some token) (some head) stale now recorded =
    elim (Bool-cases (head == item.expected_base)) [
      | inl same ↦
          let base : some head ≡ some item.expected_base =
            ap some ((eq_iff head item.expected_base).0 same) in
          rw same (inr (token, refl, inr (base, inr ((λ a e. cc), refl, refl))))
      | inr moved ↦
          rw moved (inr (token, refl, inl ((other_base head item.expected_base moved), refl, refl)))
    ]
process_item-calls item (some token) (some head) other_error now recorded =
    elim (Bool-cases (head == item.expected_base)) [
      | inl same ↦
          let base : some head ≡ some item.expected_base =
            ap some ((eq_iff head item.expected_base).0 same) in
          rw same (inr (token, refl, inr (base, inr ((λ a e. cc), refl, refl))))
      | inr moved ↦
          rw moved (inr (token, refl, inl ((other_base head item.expected_base moved), refl, refl)))
    ]

-- Drift after drift, while the item is requeued: the last resolution and the count.
unfoldable pub drifts_over : Resolution → ℕ → (ℕ → Resolution × ℕ) → Resolution × ℕ
drifts_over requeued retry_count later = later retry_count
drifts_over blocked retry_count later = (blocked, retry_count)

unfoldable pub drifts : DriftConfig → List Bool → ℕ → Resolution × ℕ
unfolding drifts_over
drifts config [] retry_count = (requeued, retry_count)
drifts config (clean ∷ later) retry_count =
    let r = evaluate_drift config retry_count clean in
    drifts_over r.resolution r.retry_count (drifts config later)

within : (m n : ℕ) → n ≤ m → m < n + 0 → ⊥
within m n le lt = omega (arith, le, lt)

-- However an item drifts, from a count within the maximum it is requeued up to the maximum and no more,
-- and one drift more than are left until then is answered with a proven block.
pub drifts-blocked :
    (config : DriftConfig) (ds : List Bool) (retry_count : ℕ)
    → retry_count ≤ config.max_retries
    → ((drifts config ds retry_count).1 ≤ config.max_retries)
      × (config.max_retries < retry_count + length ds → (drifts config ds retry_count).0 ≡ blocked)
unfolding drifts drifts_over
drifts-blocked config [] n le = (le, λ lt. absurd (within config.max_retries n le lt))
drifts-blocked config (d ∷ ds) n le = elim (evaluate_drift-requeued config n d) [
  | inl (_, _, left, again, count) ↦
      let (bound, stop) = drifts-blocked config ds (n + 1) (omega (arith, left)) in
      rw (again, count) (bound, λ lt. stop (omega (arith, lt)))
  | inr (_, given_up, count, _) ↦ rw (given_up, count) (le, λ _. refl)
]
