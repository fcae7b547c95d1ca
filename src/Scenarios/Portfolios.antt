-- ===== src/Scenarios/Portfolios.antt =====
-- A portfolio of two missions, one of which is activated late.
use the_foundry.Prelude.{
  ℕ, ◌≡◌, ◌≢◌, ◌⊎◌, ◌≤◌, ◌<◌, ◌+◌, refl, Bool, true, false, String, none, some, List, [], ◌∷◌, pos,
  length, insert_sorted,
}
use the_foundry.Mission.Portfolio.{
  PortfolioMission, Portfolio, over_budget, new_portfolio, find, modify, active_count,
  at_active_cap, add_mission, activate_over, activate, spend, charge_over, charge, fewer, pick,
  bump, take_turn, next_scheduled, schedule, and_later, lower, higher, extremes, spread_of,
  fairness_spread, Operation, adding, activating, charging, scheduling, step, run,
}
use the_foundry.Mission.Portfolio.Valid.{IsValid, run-IsValid}
use the_foundry.Mission.Portfolio.Charged.{charge-isolates}
use the_foundry.Mission.Portfolio.Fair.{IsOf, IsLeast}
use the_foundry.Mission.Portfolio.Turns.{IsFairer, next_scheduled-fair, schedule-fair}

abbrev mission : String → Bool → ℕ → PortfolioMission
mission id active scheduled = record {
  id = id;
  monthly_budget = 100;
  spent = 40;
  revenue_bearing = false;
  active = active;
  budget_scope = "";
  scheduled = scheduled;
}

abbrev history : List Operation
history =
    adding (mission "b" false 0)
    ∷ adding (mission "a" true 0)
    ∷ scheduling
    ∷ scheduling
    ∷ scheduling
    ∷ activating "b"
    ∷ charging "a" (pos 70)
    ∷ []

abbrev pair : Portfolio
pair = record { max_active_products = 2; missions = mission "a" true 3 ∷ mission "b" true 0 ∷ [] }

-- The mission that is activated late is three turns behind.
late : (run history (new_portfolio 2) ≡ pair) × (fairness_spread pair ≡ 3)
unfolding run step new_portfolio add_mission activate activate_over at_active_cap active_count
    charge charge_over next_scheduled take_turn pick fewer modify find insert_sorted fairness_spread
    spread_of extremes lower higher
late = (refl, refl)

catches_up : (schedule 4 pair).0 ≡ "b" ∷ "b" ∷ "b" ∷ "a" ∷ []
unfolding schedule and_later next_scheduled take_turn pick fewer modify
catches_up = refl

run-IsValid_example : IsValid (run history (new_portfolio 2))
run-IsValid_example = run-IsValid 2 history

charge-isolates_example :
    let (answer, after) = charge "a" (pos 70) pair in
    ((other : String) → other ≢ "a" → find other after.missions ≡ find other pair.missions)
    × ((m : PortfolioMission)
        → find "a" pair.missions ≡ some m
        → ((answer ≡ none)
            × (find "a" after.missions ≡ some (spend 70 m))
            × ((m.monthly_budget ≡ 0) ⊎ (m.spent + 70 ≤ m.monthly_budget)))
          ⊎ ((answer ≡ some over_budget)
              × (after ≡ pair)
              × (0 < m.monthly_budget)
              × (m.monthly_budget < m.spent + 70)))
charge-isolates_example = charge-isolates "a" 70 pair

next_scheduled-fair_example :
    let (turn, after) = next_scheduled pair in
    (((turn ≡ none) × (after ≡ pair))
      ⊎ ((m : PortfolioMission) × (turn ≡ some m.id)
          × IsOf m pair.missions
          × (m.active ≡ true)
          × IsLeast m pair.missions
          × (after ≡ record pair { missions = modify m.id bump pair.missions })))
    × IsFairer (fairness_spread pair) (fairness_spread after)
next_scheduled-fair_example = next_scheduled-fair pair (refl, (refl, tt))

schedule-fair_example :
    IsFairer (fairness_spread pair) (fairness_spread (schedule 4 pair).1)
    × (active_count pair.missions ≢ 0 → length (schedule 4 pair).0 ≡ 4)
schedule-fair_example = schedule-fair 4 pair (refl, (refl, tt))
