-- ===== src/Admission/Floors.antt =====
-- The tier of a decision, against the floors of the rules that its effects trip.
use the_foundry.Prelude.{
  ◌≤◌, ◌≡◌, ◌⊎◌, inl, inr, refl, ◌∙◌, true, ◌&&◌, String, List, [], ◌∷◌, ◌++◌, arith, ltb, any,
  Bool-cases, if◌then◌else◌,
}
use the_foundry.Plan.{Effect, Document}
use the_foundry.Admission.{
  Tier, a0, h, rank, Rule, base_tier, apply_discrepancy_floor, rules_v1, PolicyView, Decision,
  decide,
}

-- One step of the loop: the higher of the tier so far and the floor of a rule that fires.
abbrev step : Rule → List Effect → Tier → Tier
step rule effects tier =
    if any rule.fits effects && ltb (rank tier) (rank rule.tier_floor)
    then rule.tier_floor
    else tier

rank-step :
    (rule : Rule) (effects : List Effect) (tier : Tier) → rank tier ≤ rank (step rule effects tier)
unfolding rank
rank-step rule effects tier = ground arith

-- A tier never falls in the loop over the rules.
base_tier-grows :
    (rules : List Rule) (effects : List Effect) (tier : Tier)
    → rank tier ≤ rank (base_tier rules effects tier)
unfolding base_tier
base_tier-grows [] effects tier = omega arith
base_tier-grows (rule ∷ rules) effects tier =
    omega
      (arith, rank-step rule effects tier, base_tier-grows rules effects (step rule effects tier))

-- A rule that fires.
abbrev pub Fires : List Rule → List Effect → Rule → Type 0
Fires [] effects rule = ⊥
Fires (r ∷ rules) effects rule =
    ((rule ≡ r) × (any r.fits effects ≡ true)) ⊎ Fires rules effects rule

floor-le-step :
    (rule : Rule) (effects : List Effect) (tier : Tier)
    → any rule.fits effects ≡ true
    → rank rule.tier_floor ≤ rank (step rule effects tier)
unfolding rank
floor-le-step rule effects tier f = ground arith

step-cases :
    (rule : Rule) (effects : List Effect) (tier : Tier)
    → (step rule effects tier ≡ tier)
      ⊎ ((any rule.fits effects ≡ true) × (step rule effects tier ≡ rule.tier_floor))
step-cases rule effects tier = elim (Bool-cases (any rule.fits effects)) [
  | inl f ↦ elim (Bool-cases (ltb (rank tier) (rank rule.tier_floor))) [
    | inl lower ↦ rw (f, lower) (inr (refl, refl))
    | inr higher ↦ rw (f, higher) (inl refl)
  ]
  | inr n ↦ rw n (inl refl)
]

floor-le-base_tier :
    (rules : List Rule) (effects : List Effect) (tier : Tier) (rule : Rule)
    → Fires rules effects rule
    → rank rule.tier_floor ≤ rank (base_tier rules effects tier)
unfolding base_tier
floor-le-base_tier [] effects tier rule f = absurd f
floor-le-base_tier (r ∷ rules) effects tier rule (inl (same, f)) = rw same (
    omega
      (arith, floor-le-step r effects tier f, base_tier-grows rules effects (step r effects tier)))
floor-le-base_tier (r ∷ rules) effects tier rule (inr f) =
    floor-le-base_tier rules effects (step r effects tier) rule f

-- The highest floor wins: the tier is the one at the start or the floor of a rule that fires.
pub base_tier-attained :
    (rules : List Rule) (effects : List Effect) (tier : Tier)
    → (base_tier rules effects tier ≡ tier)
      ⊎ ((rule : Rule) × Fires rules effects rule
          × (base_tier rules effects tier ≡ rule.tier_floor))
unfolding base_tier
base_tier-attained [] effects tier = inl refl
base_tier-attained (r ∷ rules) effects tier =
    elim (base_tier-attained rules effects (step r effects tier)) [
      | inl kept ↦ elim (step-cases r effects tier) [
        | inl same ↦ inl (kept ∙ same)
        | inr (f, raised) ↦ inr (r, inl (refl, f), kept ∙ raised)
      ]
      | inr (rule, f, reached) ↦ inr (rule, inr f, reached)
    ]

rank-apply_discrepancy_floor :
    (base : Tier) (ds : List Effect) → rank base ≤ rank (apply_discrepancy_floor base ds)
unfolding rank apply_discrepancy_floor
rank-apply_discrepancy_floor base ds = ground arith

pub rank-h : (t : Tier) → rank h ≤ rank t → t ≡ h
unfolding rank
rank-h t le = ground arith

module _ (to_lower : String → String) (from_document : Document → List Effect) (policy : PolicyView)
    (doc : Document) where
  -- Declared and detected effects together.
  abbrev pub effects : List Effect
  effects = doc.declared_effects ++ from_document doc

  abbrev pub decision : Decision
  decision = decide to_lower from_document policy doc

  -- The tier is at least the floor of every rule that some declared or detected effect trips.
  pub decision_floor :
      (rule : Rule)
      → Fires (rules_v1 to_lower) effects rule
      → rank rule.tier_floor ≤ rank decision.tier
  unfolding decide
  decision_floor rule f =
      let base = base_tier (rules_v1 to_lower) effects a0 in
      omega (
        arith,
        floor-le-base_tier (rules_v1 to_lower) effects a0 rule f,
        rank-apply_discrepancy_floor base decision.discrepancies,
      )
