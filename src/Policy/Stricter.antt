-- ===== src/Policy/Stricter.antt =====
-- When one value of a field is at least as strict as another, and when a whole policy is.
use the_foundry.Prelude.{
  ℕ, ◌≤◌, ◌≡◌, refl, ap, ◌∙◌, Bool, true, String, Option, none, some, List, [], ◌++◌, arith,
  contains, lookup, eq_iff,
}
use the_foundry.Policy.{
  Mode, auto, command, disabled, unknown, same_mode, mode_rank, Policy, RiskTierControl, Override,
  stricter_or_equal,
}
use the_foundry.Policy.Merge.{Rules, same_bool, same_control, mode_rules, budget_rules, risk_rules}

abbrev pub IsWithinSet : List String → List String → Type 0
IsWithinSet from to = (v : String) → contains to v ≡ true → contains from v ≡ true

-- Of one key: both maps lack it, or both have it with the new value no weaker.
abbrev pub IsKept : {V : Type 0} → (V → V → Type 0) → Option V → Option V → Type 0
IsKept W none none = Unit
IsKept W (some old) (some new) = W old new
IsKept W none (some new) = ⊥
IsKept W (some old) none = ⊥

abbrev pub IsWithinMap :
    {V : Type 0} → (V → V → Type 0) → List (String × V) → List (String × V) → Type 0
IsWithinMap W from to = (key : String) → IsKept W (lookup key from) (lookup key to)

-- No less restrictive; no higher; no more automatic and no less reviewed.
abbrev pub IsModeKept : Mode → Mode → Type 0
IsModeKept old new = mode_rank old ≤ mode_rank new

abbrev pub IsCeilingKept : ℕ → ℕ → Type 0
IsCeilingKept old new = new ≤ old

abbrev pub IsControlKept : RiskTierControl → RiskTierControl → Type 0
IsControlKept old new =
    (new.auto_allowed ≡ true → old.auto_allowed ≡ true)
    × (old.require_review ≡ true → new.require_review ≡ true)

abbrev pub IsWithinFlag : Bool → Bool → Type 0
IsWithinFlag from to = from ≡ true → to ≡ true

pub record IsStricter (from to : Policy) : Type 0 where
  pub permissions : IsWithinSet from.permissions_allowlist to.permissions_allowlist
  pub executors : IsWithinSet from.executor_allowlist to.executor_allowlist
  pub notifications : IsWithinSet from.notification_classes to.notification_classes
  pub modes : IsWithinMap IsModeKept from.deployment_modes to.deployment_modes
  pub budgets : IsWithinMap IsCeilingKept from.budget_ceilings_usd to.budget_ceilings_usd
  pub risk_tiers : IsWithinMap IsControlKept from.risk_tier_controls to.risk_tier_controls
  pub reference : to.validation_allowlist_ref ≡ from.validation_allowlist_ref
  pub sandbox : IsWithinFlag from.require_sandbox to.require_sandbox

-- A value may replace itself, and values that test as equal are.
pub record IsLawful {V : Type 0} (rules : Rules V) : Type 0 where
  pub allowed_refl : (a : V) → rules.allowed a a ≡ true
  pub same_equal : (a b : V) → rules.same a b ≡ true → a ≡ b

-- The rules allow a value only where it is no weaker, which is an order.
pub record IsOrder {V : Type 0} (rules : Rules V) (W : V → V → Type 0) : Type 0 where
  pub allowed_kept : (a b : V) → rules.allowed a b ≡ true → W a b
  pub kept_refl : (a : V) → W a a
  pub kept_trans : (a b c : V) → W a b → W b c → W a c

same_mode-equal : (a b : Mode) → same_mode a b ≡ true → a ≡ b
unfolding same_mode
same_mode-equal auto auto e = refl
same_mode-equal auto command e = cc
same_mode-equal auto disabled e = cc
same_mode-equal auto (unknown t) e = cc
same_mode-equal command auto e = cc
same_mode-equal command command e = refl
same_mode-equal command disabled e = cc
same_mode-equal command (unknown t) e = cc
same_mode-equal disabled auto e = cc
same_mode-equal disabled command e = cc
same_mode-equal disabled disabled e = refl
same_mode-equal disabled (unknown t) e = cc
same_mode-equal (unknown s) auto e = cc
same_mode-equal (unknown s) command e = cc
same_mode-equal (unknown s) disabled e = cc
same_mode-equal (unknown s) (unknown t) e = ap unknown ((eq_iff s t).0 e)

same_bool-equal : (a b : Bool) → same_bool a b ≡ true → a ≡ b
same_bool-equal a b e = ground arith

same_control-equal : (a b : RiskTierControl) → same_control a b ≡ true → a ≡ b
unfolding same_control
same_control-equal a b e =
    let auto_same : a.auto_allowed ≡ b.auto_allowed = same_bool-equal _ _ (ground (arith, e)) in
    let review_same : a.require_review ≡ b.require_review =
      same_bool-equal _ _ (ground (arith, e)) in
    λ i. record { auto_allowed = auto_same i; require_review = review_same i }

pub mode_rules-IsLawful : IsLawful mode_rules
unfolding mode_rules
mode_rules-IsLawful = record { allowed_refl = λ a. ground arith; same_equal = same_mode-equal }

pub mode_rules-IsOrder : IsOrder mode_rules IsModeKept
unfolding mode_rules
mode_rules-IsOrder = record {
  allowed_kept = λ a b e. ground arith;
  kept_refl = λ a. omega arith;
  kept_trans = λ a b c p q. omega arith;
}

pub budget_rules-IsLawful : IsLawful budget_rules
unfolding budget_rules
budget_rules-IsLawful = record {
  allowed_refl = λ a. ground arith;
  same_equal = λ a b e. ground arith;
}

pub budget_rules-IsOrder : IsOrder budget_rules IsCeilingKept
unfolding budget_rules
budget_rules-IsOrder = record {
  allowed_kept = λ a b e. ground arith;
  kept_refl = λ a. omega arith;
  kept_trans = λ a b c p q. omega arith;
}

pub risk_rules-IsLawful : IsLawful risk_rules
unfolding risk_rules stricter_or_equal
risk_rules-IsLawful = record { allowed_refl = λ a. ground arith; same_equal = same_control-equal }

pub risk_rules-IsOrder : IsOrder risk_rules IsControlKept
unfolding risk_rules stricter_or_equal
risk_rules-IsOrder = record {
  allowed_kept = λ a b e. ((λ f. ground (arith, e, f)), λ f. ground (arith, e, f));
  kept_refl = λ a. ((λ e. e), λ e. e);
  kept_trans = λ a b c p q. ((λ e. p.0 (q.0 e)), λ e. q.1 (p.1 e));
}

module _ {V : Type 0} (rules : Rules V) (W : V → V → Type 0) (order : IsOrder rules W) where
  pub IsKept-refl : (o : Option V) → IsKept W o o
  IsKept-refl none = tt
  IsKept-refl (some a) = order.kept_refl a

  IsKept-trans : (o p q : Option V) → IsKept W o p → IsKept W p q → IsKept W o q
  IsKept-trans none none none x y = tt
  IsKept-trans none none (some c) x y = y
  IsKept-trans none (some b) q x y = absurd x
  IsKept-trans (some a) none q x y = absurd x
  IsKept-trans (some a) (some b) none x y = y
  IsKept-trans (some a) (some b) (some c) x y = order.kept_trans a b c x y

  pub IsWithinMap-refl : (m : List (String × V)) → IsWithinMap W m m
  IsWithinMap-refl m key = IsKept-refl (lookup key m)

  pub IsWithinMap-trans :
      (a b c : List (String × V)) → IsWithinMap W a b → IsWithinMap W b c → IsWithinMap W a c
  IsWithinMap-trans a b c p q key = IsKept-trans _ _ _ (p key) (q key)

pub IsStricter-refl : (p : Policy) → IsStricter p p
IsStricter-refl p = record {
  permissions = λ v e. e;
  executors = λ v e. e;
  notifications = λ v e. e;
  modes = IsWithinMap-refl mode_rules IsModeKept mode_rules-IsOrder p.deployment_modes;
  budgets = IsWithinMap-refl budget_rules IsCeilingKept budget_rules-IsOrder p.budget_ceilings_usd;
  risk_tiers = IsWithinMap-refl risk_rules IsControlKept risk_rules-IsOrder p.risk_tier_controls;
  reference = refl;
  sandbox = λ e. e;
}

pub IsStricter-trans : (p q r : Policy) → IsStricter p q → IsStricter q r → IsStricter p r
IsStricter-trans p q r a b = record {
  permissions = λ v e. a.permissions v (b.permissions v e);
  executors = λ v e. a.executors v (b.executors v e);
  notifications = λ v e. a.notifications v (b.notifications v e);
  modes =
      IsWithinMap-trans mode_rules IsModeKept mode_rules-IsOrder p.deployment_modes
        q.deployment_modes r.deployment_modes a.modes b.modes;
  budgets =
      IsWithinMap-trans budget_rules IsCeilingKept budget_rules-IsOrder p.budget_ceilings_usd
        q.budget_ceilings_usd r.budget_ceilings_usd a.budgets b.budgets;
  risk_tiers =
      IsWithinMap-trans risk_rules IsControlKept risk_rules-IsOrder p.risk_tier_controls
        q.risk_tier_controls r.risk_tier_controls a.risk_tiers b.risk_tiers;
  reference = b.reference ∙ a.reference;
  sandbox = λ e. b.sandbox (a.sandbox e);
}

-- A step from one value and its overrides to others: within what was there, with overrides added,
-- and with none added only if the value is the same.
pub record Moves {A : Type 0} (R : A → A → Type 0) (a b : A) (from to : List Override)
    : Type 0 where
  pub within : R a b
  pub more : List Override
  pub recorded : to ≡ from ++ more
  pub silent : more ≡ [] → b ≡ a
