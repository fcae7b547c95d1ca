-- ===== src/Recovery/Retry.antt =====
-- internal/recovery/retrypolicy.go: whether a failed task is retried, and how long it waits.
-- Durations are int64 nanoseconds; a configured value that is not positive reads as 0 here, since the
-- code only asks whether it is positive. `int63n` is one draw of `rand.Int63n`, a parameter.
use the_foundry.Prelude.{
  ℕ, ◌+◌, ◌-◌, ◌*◌, ◌%◌, ◌^◌, ◌||◌, String, Option, none, some, List, [], ◌∷◌, leb, ltb, eqb,
  length, get_last?, lookup_or, if◌then◌else◌,
}
use the_foundry.Verify.{Classification, retryable}
use the_foundry.Recovery.Signature.{FailureSignature, repeats}

pub data RetryAction : Type 0 where
  retry stop : RetryAction

abbrev pub stop_no_progress : String
stop_no_progress = "no-progress"

abbrev pub stop_budget_exhausted : String
stop_budget_exhausted = "budget-exhausted"

-- `delay` is `none` where `rand.Int63n` panics.
pub record RetryDecision : Type 0 where
  pub action : RetryAction
  pub delay : Option ℕ
  pub reason : String

abbrev pub default_budgets : List (String × ℕ)
default_budgets = (retryable, 3) ∷ []

pub record Policy : Type 0 where
  pub budgets : Option (List (String × ℕ))
  pub base : ℕ
  pub max : ℕ

abbrev pub int64_sign : ℕ
int64_sign = 2 ^ 63

abbrev pub int64_mod : ℕ
int64_mod = 2 ^ 64

unfoldable pub budget_in : Option (List (String × ℕ)) → Classification → ℕ
budget_in none c = lookup_or 0 c default_budgets
budget_in (some budgets) c = lookup_or 0 c budgets

unfoldable pub budget_for : Policy → Classification → ℕ
unfolding budget_in
budget_for p c = budget_in p.budgets c

unfoldable pub base_delay : Policy → ℕ
base_delay p = if ltb 0 p.base then p.base else 1_000_000_000

unfoldable pub max_delay : Policy → ℕ
max_delay p = if ltb 0 p.max then p.max else 30_000_000_000

-- d << uint(k), the bits of the int64 result; the sign bit set means a negative duration.
unfoldable pub shl64 : ℕ → ℕ → ℕ
shl64 d k = (d * 2 ^ k) % int64_mod

-- The window that the delay is drawn from: `window <= 0 || window > p.maxDelay()` is capped.
unfoldable pub window : Policy → ℕ → ℕ
window p attempt =
    let bits = shl64 (base_delay p) (attempt - 1) in
    if eqb bits 0 || leb int64_sign bits || ltb (max_delay p) bits then max_delay p else bits

module _ (int63n : ℕ → ℕ) where
  -- window+1 overflows int64 at its greatest value, and Int63n then panics.
  unfoldable pub backoff : Policy → ℕ → Option ℕ
  backoff p attempt =
      let w = window p attempt in
      if eqb w 0 then some 0 else if leb int64_sign (w + 1) then none else some (int63n (w + 1))

  unfoldable pub decide_last : Policy → ℕ → Option FailureSignature → RetryDecision
  decide_last p n none = record { action = stop; delay = some 0; reason = stop_no_progress }
  decide_last p n (some last) =
      if leb (budget_for p last.classification) n
      then record { action = stop; delay = some 0; reason = stop_budget_exhausted }
      else record { action = retry; delay = backoff p n; reason = "" }

  unfoldable pub decide : Policy → List FailureSignature → RetryDecision
  unfolding decide_last
  decide p [] = record { action = stop; delay = some 0; reason = stop_no_progress }
  decide p (s ∷ rest) =
      if repeats (s ∷ rest)
      then record { action = stop; delay = some 0; reason = stop_no_progress }
      else decide_last p (length (s ∷ rest)) (get_last? (s ∷ rest))
