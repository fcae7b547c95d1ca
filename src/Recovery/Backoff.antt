-- ===== src/Recovery/Backoff.antt =====
-- What the retry policy of internal/recovery/retrypolicy.go bounds: the delays and the attempts.
use the_foundry.Prelude.{
  ℕ, suc, zero, ◌+◌, ◌-◌, ◌*◌, ◌%◌, ◌^◌, ◌≤◌, ◌<◌, ◌≡◌, ◌↔◌, inl, inr, refl, true, false, Option,
  none, some, String, List, [], ◌∷◌, ◌++◌, ◌≢◌, subst, bar_free, key_inj, length-append, ◌∙◌, arith,
  Bool-cases, ltb→lt, eqb→≡, sym, lookup, lookup_or, ◌==◌, eq_iff, tabulated, tabulated_entry,
  length, get_last?, Bool, ltb, eqb, if◌then◌else◌,
}
use Prim.Native.Nat.{min}
use mathlib.Core.Option.{some-injective}
use native.Mathlib.Nat.{mod-eq_of_lt, suc-add, zero-add, pow-suc}
use the_foundry.Verify.{Classification, retryable}
use the_foundry.Recovery.Signature.{FailureSignature, key, repeats, repeats-last}
use the_foundry.Recovery.Retry.{
  retry, Policy, default_budgets, budget_in, budget_for, base_delay, max_delay, shl64, window,
  backoff, decide_last, decide, int64_sign, int64_mod,
}

window-le-max : (p : Policy) (attempt : ℕ) → window p attempt ≤ max_delay p
unfolding window
window-le-max p attempt = ground arith

-- What `rand.Int63n` documents: the draw lies below its positive argument.
abbrev pub Draws : (ℕ → ℕ) → Type 0
Draws int63n = (n : ℕ) → 0 < n → int63n n < n

module _ (int63n : ℕ → ℕ) (draws : Draws int63n) where
  -- Unless the largest delay is the greatest int64, a delay is drawn, and it is at most the largest.
  pub backoff_bounded :
      (p : Policy) (attempt : ℕ)
      → max_delay p + 1 < int64_sign
      → (d : ℕ) × (backoff int63n p attempt ≡ some d) × (d ≤ max_delay p)
  unfolding backoff
  backoff_bounded p attempt fits =
      let w = window p attempt in
      let below : w ≤ max_delay p = window-le-max p attempt in
      elim (Bool-cases (eqb w 0)) [
        | inl z ↦ (0, ground arith, omega arith)
        | inr nz ↦ (int63n (w + 1), ground arith, omega (arith, draws (w + 1)))
      ]

-- While the exponential delay is positive and fits in an int64, the window is that delay, capped.
pub window_exact :
    (p : Policy) (attempt : ℕ)
    → base_delay p * 2 ^ (attempt - 1) < int64_sign
    → 0 < base_delay p * 2 ^ (attempt - 1)
    → window p attempt ≡ min (base_delay p * 2 ^ (attempt - 1)) (max_delay p)
unfolding window shl64
window_exact p attempt fits positive =
    let d = base_delay p * 2 ^ (attempt - 1) in
    let whole : d % int64_mod ≡ d = mod-eq_of_lt (omega arith) in rw whole (ground arith)

abbrev pub default_policy : Policy
default_policy = record { budgets = none; base = 0; max = 0 }

shl64_zero : (d k j : ℕ) → shl64 d k ≡ 0 → shl64 d (j + k) ≡ 0
unfolding shl64
shl64_zero d k zero h = rw zero-add h
shl64_zero d k (suc j) h = rw (suc-add, pow-suc) (double (shl64_zero d k j h))
  where
    double : (d * 2 ^ (j + k)) % int64_mod ≡ 0 → (d * (2 ^ (j + k) * 2)) % int64_mod ≡ 0
    double e = omega arith

abbrev default_delay : ℕ → ℕ
default_delay k = if ltb k 5 then 1_000_000_000 * 2 ^ k else 30_000_000_000

default_window_table :
    tabulated (λ k. eqb (window default_policy (k + 1)) (default_delay k)) 64 ≡ true
unfolding window shl64 base_delay max_delay tabulated
default_window_table = refl

late : (k : ℕ) → 64 ≤ k → window default_policy (k + 1) ≡ default_delay k
unfolding window base_delay max_delay
late k h =
    let gone : shl64 1_000_000_000 (k - 55 + 55) ≡ 0 =
      shl64_zero 1_000_000_000 55 (k - 55) (unfold shl64 in refl) in
    let shift : k - 55 + 55 ≡ k + 1 - 1 = omega arith in ground (arith, rw shift at gone)

-- The default policy's windows are 1 s, 2 s, 4 s, 8 s and 16 s, then 30 s for every later attempt,
-- also where the shift overflows.
pub default_window : (k : ℕ) → window default_policy (k + 1) ≡ default_delay k
default_window k = elim (Bool-cases (ltb k 64)) [
  | inl low ↦ (eqb→≡ _ _ (tabulated_entry _ 64 (ltb→lt k 64 low) default_window_table))
  | inr high ↦ late k (ground arith)
]

module _ (int63n : ℕ → ℕ) where
  decide_last-retry :
      (p : Policy) (n : ℕ) (o : Option FailureSignature)
      → ((decide_last int63n p n o).action ≡ retry)
        ↔ ((last : FailureSignature) × (o ≡ some last) × (n < budget_for p last.classification))
  unfolding decide_last
  decide_last-retry p n none = (λ h. cc, λ h. cc h.1)
  decide_last-retry p n (some last) =
      (λ h. (last, refl, ground arith), λ h. ground (arith, h.1, h.2))

  decide_lem :
      (p : Policy) (h : List FailureSignature)
      → ((decide int63n p h).action ≡ retry) ↔ (
          (last : FailureSignature) × (get_last? h ≡ some last)
          × (length h < budget_for p last.classification)
          × (repeats h ≡ false))
  unfolding decide
  decide_lem p [] = (λ h. cc, λ h. cc h.1)
  decide_lem p (s ∷ rest) = elim (Bool-cases (repeats (s ∷ rest))) [
    | inl same ↦ rw same (λ h. cc, λ h. cc h.3)
    | inr differ ↦
        let spec = decide_last-retry p (length (s ∷ rest)) (get_last? (s ∷ rest)) in
        rw differ (λ h. let x = spec.0 h in (x.0, x.1, x.2, refl), λ h. spec.1 (h.0, h.1, h.2))
  ]

  -- Under the default budgets only a retryable failure is retried, and a task that has failed three
  -- times never is.
  pub default_retry :
      (p : Policy) (h : List FailureSignature)
      → p.budgets ≡ none
      → (decide int63n p h).action ≡ retry
      → (length h < 3)
        × ((last : FailureSignature) × (get_last? h ≡ some last)
            × (last.classification ≡ retryable))
  unfolding budget_for budget_in lookup lookup_or
  default_retry p h standard r =
      let (last, found, short, differ) = (decide_lem p h).0 r in
      let c = last.classification in
      let small : length h < lookup_or 0 c default_budgets = rw standard at short in
      elim (Bool-cases (retryable == c)) [
        | inl same ↦ (rw same at small, (last, found, sym ((eq_iff retryable c).0 same)))
        | inr other ↦ absurd (impossible (rw other at small))
      ]
    where
      impossible : {n : ℕ} → n < 0 → ⊥
      impossible lt = omega arith

-- The budget of a classification: the configured one, else three attempts for what is retryable.
unfoldable pub limit : Option (List (String × ℕ)) → Classification → ℕ
limit none c = if "retryable" == c then 3 else 0
limit (some budgets) c = lookup_or 0 c budgets

budget_in-limit : (o : Option (List (String × ℕ))) (c : Classification) → budget_in o c ≡ limit o c
unfolding budget_in limit lookup lookup_or
budget_in-limit none c = elim (Bool-cases ("retryable" == c)) [
  | inl same ↦ rw same refl
  | inr other ↦ rw other refl
]
budget_in-limit (some budgets) c = refl

budget_for-limit : (p : Policy) (c : Classification) → budget_for p c ≡ limit p.budgets c
unfolding budget_for
budget_for-limit p c = budget_in-limit p.budgets c

last-append :
    (earlier : List FailureSignature) (a b : FailureSignature)
    → get_last? (earlier ++ a ∷ b ∷ []) ≡ some b
last-append [] a b = refl
last-append (x ∷ []) a b = refl
last-append (x ∷ y ∷ earlier) a b = last-append (y ∷ earlier) a b

same_key :
    (a b : FailureSignature)
    → bar_free a.classification ≡ true
    → bar_free b.classification ≡ true
    → ((key b == key a) ≡ true) ↔ ((a.classification ≡ b.classification) × (a.detail ≡ b.detail))
unfolding key
same_key a b free_a free_b = (
  λ e.
      let (c, d) =
        key_inj b.classification a.classification b.detail a.detail free_b free_a
          ((eq_iff (key b) (key a)).0 e) in
      (sym c, sym d),
  λ (c, d). (eq_iff (key b) (key a)).1 (cc (c, d)),
)

decide_once :
    (int63n : ℕ → ℕ) (p : Policy) (b : FailureSignature)
    → ((decide int63n p (b ∷ [])).action ≡ retry) ↔ (1 < limit p.budgets b.classification)
unfolding repeats
decide_once int63n p b = (
  λ r.
      let (last, found, short, differ) = (decide_lem int63n p (b ∷ [])).0 r in
      let is : b ≡ last = some-injective b last found in
      let short_b : 1 < budget_for p b.classification = rw is short in
      rw budget_for-limit at short_b,
  λ short. (decide_lem int63n p (b ∷ [])).1 (b, refl, rw budget_for-limit short, refl),
)

-- A task that has not failed is not retried; one that has failed once is retried exactly if its budget is
-- above one; and one that has failed more often exactly if its last two failures differ in
-- classification or detail, and it has failed less often than the budget of the last one's
-- classification, which holds no bar.
pub decide_retry :
    (int63n : ℕ → ℕ) (p : Policy) (earlier : List FailureSignature) (a b : FailureSignature)
    → bar_free a.classification ≡ true
    → bar_free b.classification ≡ true
    → ((decide int63n p []).action ≢ retry)
      × (((decide int63n p (b ∷ [])).action ≡ retry) ↔ (1 < limit p.budgets b.classification))
      × (((decide int63n p (earlier ++ a ∷ b ∷ [])).action ≡ retry) ↔ (
          ((a.classification ≡ b.classification) → a.detail ≢ b.detail)
          × (length earlier + 2 < limit p.budgets b.classification)))
decide_retry int63n p earlier a b free_a free_b = (
  (λ e. cc ((decide_lem int63n p []).0 e).1),
  decide_once int63n p b,
  (
    λ r.
        let (last, found, short, differ) = (decide_lem int63n p h).0 r in
        let is : b ≡ last = some-injective b last (sym (last-append earlier a b) ∙ found) in
        let short_b : length h < budget_for p b.classification =
          subst (λ (s : FailureSignature). length h < budget_for p s.classification) (sym is)
            short in
        (
          λ c d. absurd (
              clash ((same_key a b free_a free_b).1 (c, d))
                (sym (repeats-last earlier a b) ∙ differ)),
          rw (budget_for-limit, length-append) at short_b,
        ),
    λ (apart, short). (decide_lem int63n p h).1 (
      b,
      last-append earlier a b,
      rw (budget_for-limit, length-append) short,
      elim (Bool-cases (key b == key a)) [
        | inl same ↦ let (c, d) = (same_key a b free_a free_b).0 same in absurd (apart c d)
        | inr differ ↦ repeats-last earlier a b ∙ differ
      ],
    ),
  ),
)
  where
    h : List FailureSignature
    h = earlier ++ a ∷ b ∷ []

    clash : {x : Bool} → x ≡ true → x ≡ false → ⊥
    clash p q = cc
