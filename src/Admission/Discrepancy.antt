-- ===== src/Admission/Discrepancy.antt =====
-- What undeclared effects do to the tier, and which decisions are forced to the human tier.
use the_foundry.Prelude.{
  ◌<◌, ◌≡◌, ◌⊎◌, inl, inr, refl, ◌∙◌, Bool, true, false, not, ◌&&◌, String, List, [], ◌∷◌, arith,
  any, Bool-cases, is_empty, any-sort_by,
}
use the_foundry.Plan.{Effect, Document}
use the_foundry.Admission.{
  Tier, a0, h, rank, Rule, base_tier, kind_in, is_grave, apply_discrepancy_floor, effect_less,
  has_key, undeclared, discrepancy_effects, rules_v1, PolicyView, decide,
}
use the_foundry.Admission.Floors.{
  Fires, base_tier-attained, rank-h, effects, decision, decision_floor,
}

any-undeclared :
    (p : Effect → Bool) (declared detected : List Effect)
    → any p (undeclared declared detected)
      ≡ any (λ e. not (any (has_key e) declared) && p e) detected
unfolding undeclared
any-undeclared p declared [] = refl
any-undeclared p declared (e ∷ detected) = elim (Bool-cases (any (has_key e) declared)) [
  | inl old ↦ rw old (any-undeclared p declared detected)
  | inr new ↦ rw (new, any-undeclared p declared detected)
]

any-discrepancy_effects :
    (p : Effect → Bool) (declared detected : List Effect)
    → any p (discrepancy_effects declared detected)
      ≡ any (λ e. not (any (has_key e) declared) && p e) detected
unfolding discrepancy_effects
any-discrepancy_effects p declared detected =
    any-sort_by effect_less p (undeclared declared detected) ∙ any-undeclared p declared detected

any-ne-empty : (p : Effect → Bool) (ds : List Effect) → any p ds ≡ true → is_empty ds ≡ false
any-ne-empty p [] e = cc
any-ne-empty p (d ∷ ds) e = refl

raised :
    (base : Tier) (ds : List Effect)
    → is_empty ds ≡ false
    → (rank base < rank (apply_discrepancy_floor base ds)) ⊎ (apply_discrepancy_floor base ds ≡ h)
unfolding rank apply_discrepancy_floor
raised base ds e = ground arith

grave_h :
    (base : Tier) (ds : List Effect) → any is_grave ds ≡ true → apply_discrepancy_floor base ds ≡ h
unfolding apply_discrepancy_floor
grave_h base ds e = ground (arith, any-ne-empty is_grave ds e)

no-discrepancy :
    (base : Tier) (ds : List Effect)
    → any (λ e. true) ds ≡ false
    → apply_discrepancy_floor base ds ≡ base
unfolding apply_discrepancy_floor
no-discrepancy base [] e = refl
no-discrepancy base (d ∷ ds) e = cc

module _ (to_lower : String → String) (from_document : Document → List Effect) (policy : PolicyView)
    (doc : Document) where
  abbrev verdict_tier : Tier
  verdict_tier = (decision to_lower from_document policy doc).tier

  -- An effect that is detected and not declared under the same kind and target.
  abbrev pub hidden : (Effect → Bool) → Bool
  hidden p = any (λ e. not (any (has_key e) doc.declared_effects) && p e) (from_document doc)

  abbrev base : Tier
  base = base_tier (rules_v1 to_lower) (effects to_lower from_document policy doc) a0

  -- A billing, permission or destructive effect, declared or detected, needs a human.
  pub irreversible_needs_human :
      any
          (kind_in ("billing" ∷ "permission" ∷ "destructive" ∷ []))
          (effects to_lower from_document policy doc)
        ≡ true
      → verdict_tier ≡ h
  irreversible_needs_human e =
      rank-h _ (decision_floor to_lower from_document policy doc _ (inr (inr (inl (refl, e)))))

  -- A detected billing, secret or destructive effect that the plan did not declare makes the tier
  -- H.
  pub hidden_grave_needs_human : hidden is_grave ≡ true → verdict_tier ≡ h
  unfolding decide
  hidden_grave_needs_human e =
      grave_h base _ (any-discrepancy_effects is_grave doc.declared_effects (from_document doc) ∙ e)

  -- Any undeclared effect raises the tier above what the rules alone give, unless that is H already.
  pub hidden_raises :
      hidden (λ e. true) ≡ true → (rank base < rank verdict_tier) ⊎ (verdict_tier ≡ h)
  unfolding decide
  hidden_raises e =
      let ds = discrepancy_effects doc.declared_effects (from_document doc) in
      raised base ds (
        any-ne-empty (λ e. true) ds
          (any-discrepancy_effects (λ e. true) doc.declared_effects (from_document doc) ∙ e))

  -- Where every detected effect is declared, the tier is A0 or the floor of a rule that fires.
  pub declared_exact :
      hidden (λ e. true) ≡ false
      → (verdict_tier ≡ a0)
        ⊎ ((rule : Rule) × Fires
              (rules_v1 to_lower)
              (effects to_lower from_document policy doc)
              rule
            × (verdict_tier ≡ rule.tier_floor))
  unfolding decide
  declared_exact e =
      let ds = discrepancy_effects doc.declared_effects (from_document doc) in
      let none_hidden =
        any-discrepancy_effects (λ e. true) doc.declared_effects (from_document doc) ∙ e in
      rw (no-discrepancy base ds none_hidden)
        (base_tier-attained (rules_v1 to_lower) (effects to_lower from_document policy doc) a0)
