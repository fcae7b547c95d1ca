-- ===== src/Mission/Portfolio/Charged.antt =====
-- A charge touches one mission, within its budget.
use the_foundry.Prelude.{
  ℕ, ◌+◌, ◌≤◌, ◌<◌, ◌≡◌, ◌≢◌, ◌⊎◌, inl, inr, refl, ap, ◌∙◌, subst, true, false, ◌&&◌, ◌==◌, eq_iff,
  String, none, some, List, [], ◌∷◌, arith, ltb, pos, Bool-cases, Option-cases,
}
use mathlib.Core.Option
use mathlib.Core.Option.{some-injective}
use the_foundry.Mission.Portfolio.{
  PortfolioMission, Portfolio, over_budget, find, modify, spend, charge_over, charge,
}

module _ (f : PortfolioMission → PortfolioMission)
    (same : (m : PortfolioMission) → (f m).id ≡ m.id) where
  find-modify_same :
      (id : String) (ms : List PortfolioMission) (m : PortfolioMission)
      → find id ms ≡ some m
      → find id (modify id f ms) ≡ some (f m)
  unfolding find modify
  find-modify_same id [] m e = cc
  find-modify_same id (x ∷ ms) m e = elim (Bool-cases (x.id == id)) [
    | inl here ↦
        let k : ((f x).id == id) ≡ true = ap (λ z. z == id) (same x) ∙ here in
        rw (here, k) (ap (λ o. Option.map f o) (rw here at e))
    | inr there ↦ rw (there, there) (find-modify_same id ms m (rw there at e))
  ]

  find-modify_other :
      (other id : String) (ms : List PortfolioMission)
      → other ≢ id
      → find other (modify id f ms) ≡ find other ms
  unfolding find modify
  find-modify_other other id [] apart = refl
  find-modify_other other id (x ∷ ms) apart = elim (Bool-cases (x.id == id)) [
    | inl here ↦
        let not_it : (x.id == other) ≡ false =
          ground (arith, here, apart, eq_iff x.id id, eq_iff x.id other) in
        let k : ((f x).id == other) ≡ false = ap (λ z. z == other) (same x) ∙ not_it in
        rw (here, k, not_it) (find-modify_other other id ms apart)
    | inr there ↦ rw there (ground (arith, find-modify_other other id ms apart))
  ]

-- A charge that is not negative leaves every other mission as it is. Of a mission of the portfolio, it
-- succeeds and adds the amount to what the mission has spent, which was within its budget if it has one;
-- or it fails and changes nothing, since the mission has a budget that the sum exceeds.
pub charge-isolates :
    (id : String) (amount : ℕ) (p : Portfolio)
    → let (answer, after) = charge id (pos amount) p in
      ((other : String) → other ≢ id → find other after.missions ≡ find other p.missions)
      × ((m : PortfolioMission)
          → find id p.missions ≡ some m
          → ((answer ≡ none)
              × (find id after.missions ≡ some (spend amount m))
              × ((m.monthly_budget ≡ 0) ⊎ (m.spent + amount ≤ m.monthly_budget)))
            ⊎ ((answer ≡ some over_budget)
                × (after ≡ p)
                × (0 < m.monthly_budget)
                × (m.monthly_budget < m.spent + amount)))
unfolding charge charge_over
charge-isolates id amount p = elim (Option-cases (find id p.missions)) [
  | inl absent ↦ rw absent ((λ other apart. refl), λ m found. cc)
  | inr (x, here) ↦
      elim (Bool-cases (ltb 0 x.monthly_budget && ltb x.monthly_budget (x.spent + amount))) [
        | inl over ↦
            rw (here, over)
              (
                (λ other apart. refl),
                λ m found.
                    let same : x ≡ m = some-injective x m found in
                    inr (
                      refl,
                      refl,
                      subst (λ z. 0 < z.monthly_budget) same (ground (arith, over)),
                      subst (λ z. z.monthly_budget < z.spent + amount) same (ground (arith, over)),
                    ),
              )
        | inr within ↦
            rw (here, within)
              (
                (λ other apart.
                    find-modify_other (spend amount) (λ m. refl) other id p.missions apart),
                λ m found.
                    let same : x ≡ m = some-injective x m found in
                    inl (
                      refl,
                      find-modify_same (spend amount) (λ m. refl) id p.missions m (here ∙ found),
                      subst (λ z. (z.monthly_budget ≡ 0) ⊎ (z.spent + amount ≤ z.monthly_budget))
                          same (ground (arith, within)),
                    ),
              )
      ]
]
