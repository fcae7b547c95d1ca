-- ===== src/Policy/Tightened.antt =====
-- Each part of applyLayer, each layer and the whole fold move the policy to one at least as strict.
use the_foundry.Prelude.{ℕ, ◌≡◌, ap, ◌∙◌, subst, sym, Bool, String, Option, none, some, List}
use the_foundry.Policy.{Layer, Mode, RiskTierControl, Policy, LayerPolicy, Override, Draft}
use the_foundry.Policy.Results.{ok, ◌>>=◌, bind-ok, Updated}
use the_foundry.Policy.Merge
use the_foundry.Policy.Compile
use the_foundry.Policy.Stricter.{
  IsWithinSet, IsWithinMap, IsWithinFlag, IsModeKept, IsCeilingKept, IsControlKept, IsStricter,
  IsStricter-refl, IsStricter-trans, Moves, mode_rules-IsOrder, budget_rules-IsOrder,
  risk_rules-IsOrder,
}
use the_foundry.Policy.OneField.{
  with_permissions-IsStricter, with_executors-IsStricter, with_notifications-IsStricter,
  with_modes-IsStricter, with_budgets-IsStricter, with_risk_tiers-IsStricter,
  with_sandbox-IsStricter,
}
use the_foundry.Policy.Merged.{
  Moves-same, Moves-trans, merge_string_set-Moves, merge_map-Moves, merge_require_sandbox-Moves,
  merge_fixed_string-same,
}

-- The step from one draft to another.
abbrev pub Tightens : Draft → Draft → Type 0
Tightens d d' = Moves IsStricter d.effective d'.effective d.overrides d'.overrides

Tightens-refl : (d : Draft) → Tightens d d
Tightens-refl d = Moves-same IsStricter d.effective d.overrides (IsStricter-refl d.effective)

pub Tightens-trans : (a b c : Draft) → Tightens a b → Tightens b c → Tightens a c
Tightens-trans a b c =
    Moves-trans IsStricter a.effective b.effective c.effective a.overrides b.overrides c.overrides
      (IsStricter-trans a.effective b.effective c.effective)

same_draft : {x y : Draft} → ok x ≡ ok y → x ≡ y
same_draft e = cc

-- A step of one field is a step of the policy.
field-Tightens :
    {A : Type 0} (R : A → A → Type 0) (set : A → Policy) (m : Updated A) (a : A) (d' : Draft)
    (o : List Override)
    → ((b : A) → R a b → IsStricter (set a) (set b))
    → ((b : A) (o' : List Override) → m ≡ ok (b, o') → Moves R a b o o')
    → (m >>= λ n. ok (record { effective = set n.0; overrides = n.1 })) ≡ ok d'
    → Tightens (record { effective = set a; overrides = o }) d'
field-Tightens R set m a d' o lift moves e =
    let (n, first, last) =
      bind-ok m (λ n. ok (record { effective = set n.0; overrides = n.1 })) e in
    let step = moves n.0 n.1 first in
    let next : Draft = record { effective = set n.0; overrides = n.1 } in
    subst (Tightens (record { effective = set a; overrides = o })) (same_draft last) (record {
      within = lift n.0 step.within;
      more = step.more;
      recorded = step.recorded;
      silent = λ q. ap set (step.silent q);
    })

permissions-Tightens :
    (layer : Layer) (next : Option (List String)) (d d' : Draft)
    → Compile.apply_permissions layer next d ≡ ok d'
    → Tightens d d'
unfolding Compile.apply_permissions
permissions-Tightens layer none d d' e = subst (Tightens d) (same_draft e) (Tightens-refl d)
permissions-Tightens layer (some next) d d' e =
    field-Tightens (IsWithinSet) (λ a. record d.effective { permissions_allowlist = a }) _
      d.effective.permissions_allowlist d' d.overrides (with_permissions-IsStricter d.effective)
      (λ b o' f.
        merge_string_set-Moves _ layer d.effective.permissions_allowlist next b d.overrides o' f)
      e

executors-Tightens :
    (layer : Layer) (next : Option (List String)) (d d' : Draft)
    → Compile.apply_executors layer next d ≡ ok d'
    → Tightens d d'
unfolding Compile.apply_executors
executors-Tightens layer none d d' e = subst (Tightens d) (same_draft e) (Tightens-refl d)
executors-Tightens layer (some next) d d' e =
    field-Tightens (IsWithinSet) (λ a. record d.effective { executor_allowlist = a }) _
      d.effective.executor_allowlist d' d.overrides (with_executors-IsStricter d.effective)
      (λ b o' f.
        merge_string_set-Moves _ layer d.effective.executor_allowlist next b d.overrides o' f)
      e

notifications-Tightens :
    (layer : Layer) (next : Option (List String)) (d d' : Draft)
    → Compile.apply_notifications layer next d ≡ ok d'
    → Tightens d d'
unfolding Compile.apply_notifications
notifications-Tightens layer none d d' e = subst (Tightens d) (same_draft e) (Tightens-refl d)
notifications-Tightens layer (some next) d d' e =
    field-Tightens (IsWithinSet) (λ a. record d.effective { notification_classes = a }) _
      d.effective.notification_classes d' d.overrides (with_notifications-IsStricter d.effective)
      (λ b o' f.
        merge_string_set-Moves _ layer d.effective.notification_classes next b d.overrides o' f)
      e

modes-Tightens :
    (layer : Layer) (next : List (String × Mode)) (d d' : Draft)
    → Compile.apply_modes layer next d ≡ ok d'
    → Tightens d d'
unfolding Compile.apply_modes
modes-Tightens layer next d d' e =
    field-Tightens (IsWithinMap IsModeKept) (λ a. record d.effective { deployment_modes = a }) _
      d.effective.deployment_modes d' d.overrides (with_modes-IsStricter d.effective)
      (λ b o' f.
        merge_map-Moves Merge.mode_rules IsModeKept layer mode_rules-IsOrder
          d.effective.deployment_modes next b d.overrides o' f)
      e

budgets-Tightens :
    (layer : Layer) (next : List (String × ℕ)) (d d' : Draft)
    → Compile.apply_budgets layer next d ≡ ok d'
    → Tightens d d'
unfolding Compile.apply_budgets
budgets-Tightens layer next d d' e =
    field-Tightens (IsWithinMap IsCeilingKept) (λ a. record d.effective { budget_ceilings_usd = a })
      _ d.effective.budget_ceilings_usd d' d.overrides (with_budgets-IsStricter d.effective)
      (λ b o' f.
        merge_map-Moves Merge.budget_rules IsCeilingKept layer budget_rules-IsOrder
          d.effective.budget_ceilings_usd next b d.overrides o' f)
      e

risk_tiers-Tightens :
    (layer : Layer) (next : List (String × RiskTierControl)) (d d' : Draft)
    → Compile.apply_risk_tiers layer next d ≡ ok d'
    → Tightens d d'
unfolding Compile.apply_risk_tiers
risk_tiers-Tightens layer next d d' e =
    field-Tightens (IsWithinMap IsControlKept) (λ a. record d.effective { risk_tier_controls = a })
      _ d.effective.risk_tier_controls d' d.overrides (with_risk_tiers-IsStricter d.effective)
      (λ b o' f.
        merge_map-Moves Merge.risk_rules IsControlKept layer risk_rules-IsOrder
          d.effective.risk_tier_controls next b d.overrides o' f)
      e

sandbox-Tightens :
    (layer : Layer) (next : Option (Bool)) (d d' : Draft)
    → Compile.apply_sandbox layer next d ≡ ok d'
    → Tightens d d'
unfolding Compile.apply_sandbox
sandbox-Tightens layer none d d' e = subst (Tightens d) (same_draft e) (Tightens-refl d)
sandbox-Tightens layer (some next) d d' e =
    field-Tightens (IsWithinFlag) (λ a. record d.effective { require_sandbox = a }) _
      d.effective.require_sandbox d' d.overrides (with_sandbox-IsStricter d.effective)
      (λ b o' f.
        merge_require_sandbox-Moves layer d.effective.require_sandbox next b d.overrides o' f)
      e

reference-Tightens :
    (layer : Layer) (next : Option String) (d d' : Draft)
    → Compile.apply_reference layer next d ≡ ok d'
    → Tightens d d'
unfolding Compile.apply_reference
reference-Tightens layer none d d' e = subst (Tightens d) (same_draft e) (Tightens-refl d)
reference-Tightens layer (some next) d d' e =
    let merge =
      Merge.merge_fixed_string layer d.effective.validation_allowlist_ref next d.overrides in
    let (o, first, last) = bind-ok merge (λ o. ok (record d { overrides = o })) e in
    let same =
      merge_fixed_string-same layer d.effective.validation_allowlist_ref next d.overrides o first in
    subst (Tightens d) (ap (λ o. record d { overrides = o }) (sym same) ∙ same_draft last)
      (Tightens-refl d)

pub apply_layer-Tightens :
    (layer : Layer) (next : LayerPolicy) (start end : Draft)
    → Compile.apply_layer layer next start ≡ ok end
    → Tightens start end
unfolding Compile.apply_layer
apply_layer-Tightens layer next start end e0 =
    let (a, s1, e1) = bind-ok _ _ e0 in
    let (b, s2, e2) = bind-ok _ _ e1 in
    let (c, s3, e3) = bind-ok _ _ e2 in
    let (d, s4, e4) = bind-ok _ _ e3 in
    let (e, s5, e5) = bind-ok _ _ e4 in
    let (f, s6, e6) = bind-ok _ _ e5 in
    let (g, s7, s8) = bind-ok _ _ e6 in
    Tightens-trans _ _ _ (permissions-Tightens layer _ start a s1) (
      Tightens-trans _ _ _ (executors-Tightens layer _ a b s2) (
        Tightens-trans _ _ _ (notifications-Tightens layer _ b c s3) (
          Tightens-trans _ _ _ (modes-Tightens layer _ c d s4) (
            Tightens-trans _ _ _ (budgets-Tightens layer _ d e s5) (
              Tightens-trans _ _ _ (risk_tiers-Tightens layer _ e f s6) (
                Tightens-trans _ _ _ (reference-Tightens layer _ f g s7)
                  (sandbox-Tightens layer _ g end s8)))))))
