-- ===== src/Mission/Portfolio/Valid.antt =====
-- A portfolio holds one mission of each id, and no more active ones than its cap.
use the_foundry.Prelude.{
  ℕ, suc, ◌+◌, ◌≤◌, ◌≡◌, ◌⊎◌, inl, inr, refl, true, false, ◌&&◌, ◌==◌, String, Option, none, some,
  List, [], ◌∷◌, arith, ltb, ℤ, pos, negsuc, insert_sorted, Bool-cases,
}
use the_foundry.Mission.Portfolio.Counts.{
  IsDistinct, insert-IsDistinct, active_count-insert, modify-IsDistinct, active_count-modify,
  active_count-modify_one, active_count-modify_le,
}
use the_foundry.Mission.Portfolio.{
  PortfolioMission, Portfolio, new_portfolio, has, modify, active_count, at_active_cap, by_id,
  add_mission, set_active, activate_over, activate, deactivate_over, deactivate, spend, charge_over,
  charge, bump, take_turn, next_scheduled, Operation, adding, activating, deactivating, charging,
  scheduling, step, run,
}

pub record IsValid (p : Portfolio) : Type 0 where
  pub distinct : IsDistinct p.missions
  pub capped : (p.max_active_products ≡ 0) ⊎ (active_count p.missions ≤ p.max_active_products)

under_cap :
    (p : Portfolio)
    → at_active_cap p ≡ false
    → (p.max_active_products ≡ 0) ⊎ (suc (active_count p.missions) ≤ p.max_active_products)
unfolding at_active_cap
under_cap p e = ground (arith, e)

added :
    (m : PortfolioMission) (p : Portfolio)
    → IsValid p
    → (m.active && at_active_cap p) ≡ false
    → (p.max_active_products ≡ 0)
      ⊎ (active_count (insert_sorted by_id m p.missions) ≤ p.max_active_products)
unfolding active_count at_active_cap
added m p v room = rw (active_count-insert m p.missions) (ground (arith, v.capped, room))

add_mission-IsValid :
    (m : PortfolioMission) (p : Portfolio) → IsValid p → IsValid (add_mission m p).1
unfolding add_mission
add_mission-IsValid m p v = elim (Bool-cases (m.id == "")) [
  | inl unnamed ↦ rw unnamed v
  | inr named ↦ elim (Bool-cases (has m.id p.missions)) [
    | inl there ↦ rw (named, there) v
    | inr new ↦ elim (Bool-cases (m.active && at_active_cap p)) [
      | inl full ↦ rw (named, new, full) v
      | inr room ↦
          rw (named, new, room)
            (record {
              distinct = insert-IsDistinct m p.missions new v.distinct;
              capped = added m p v room;
            })
    ]
  ]
]

activate_over-IsValid :
    (o : Option PortfolioMission) (id : String) (p : Portfolio)
    → IsValid p
    → IsValid (activate_over o id p).1
unfolding activate_over
activate_over-IsValid none id p v = v
activate_over-IsValid (some m) id p v = elim (Bool-cases m.active) [
  | inl on ↦ rw on v
  | inr off ↦ elim (Bool-cases (at_active_cap p)) [
    | inl full ↦ rw (off, full) v
    | inr room ↦
        let one = active_count-modify_one (set_active true) (λ m. refl) id p.missions v.distinct in
        rw (off, room)
          (record {
            distinct = modify-IsDistinct (set_active true) (λ m. refl) id p.missions v.distinct;
            capped = ground (arith, under_cap p room, one);
          })
  ]
]

deactivate_over-IsValid :
    (o : Option PortfolioMission) (id : String) (p : Portfolio)
    → IsValid p
    → IsValid (deactivate_over o id p).1
unfolding deactivate_over
deactivate_over-IsValid none id p v = v
deactivate_over-IsValid (some m) id p v =
    let fewer = active_count-modify_le (set_active false) (λ m. refl) id p.missions (λ m. refl) in
    record {
      distinct = modify-IsDistinct (set_active false) (λ m. refl) id p.missions v.distinct;
      capped = ground (arith, v.capped, fewer);
    }

-- An update that keeps ids and activity.
modify-IsValid :
    (f : PortfolioMission → PortfolioMission) (id : String) (p : Portfolio)
    → ((m : PortfolioMission) → (f m).id ≡ m.id)
    → ((m : PortfolioMission) → (f m).active ≡ m.active)
    → IsValid p
    → IsValid (record p { missions = modify id f p.missions })
modify-IsValid f id p same kept v = record {
  distinct = modify-IsDistinct f same id p.missions v.distinct;
  capped = rw (active_count-modify f same id p.missions kept) v.capped;
}

charge_over-IsValid :
    (o : Option PortfolioMission) (id : String) (amount : ℤ) (p : Portfolio)
    → IsValid p
    → IsValid (charge_over o id amount p).1
unfolding charge_over
charge_over-IsValid none id amount p v = v
charge_over-IsValid (some m) id (negsuc k) p v = v
charge_over-IsValid (some m) id (pos amount) p v =
    elim (Bool-cases (ltb 0 m.monthly_budget && ltb m.monthly_budget (m.spent + amount))) [
      | inl over ↦ rw over v
      | inr within ↦ rw within (modify-IsValid (spend amount) id p (λ m. refl) (λ m. refl) v)
    ]

take_turn-IsValid :
    (o : Option PortfolioMission) (p : Portfolio) → IsValid p → IsValid (take_turn o p).1
unfolding take_turn
take_turn-IsValid none p v = v
take_turn-IsValid (some m) p v = modify-IsValid bump m.id p (λ m. refl) (λ m. refl) v

step-IsValid : (op : Operation) (p : Portfolio) → IsValid p → IsValid (step op p)
unfolding step activate deactivate charge next_scheduled
step-IsValid (adding m) p v = add_mission-IsValid m p v
step-IsValid (activating id) p v = activate_over-IsValid _ id p v
step-IsValid (deactivating id) p v = deactivate_over-IsValid _ id p v
step-IsValid (charging id amount) p v = charge_over-IsValid _ id amount p v
step-IsValid scheduling p v = take_turn-IsValid _ p v

run-IsValid_from : (ops : List Operation) (p : Portfolio) → IsValid p → IsValid (run ops p)
unfolding run
run-IsValid_from [] p v = v
run-IsValid_from (op ∷ ops) p v = run-IsValid_from ops (step op p) (step-IsValid op p v)

-- Whatever operations are run on a new portfolio: its missions have distinct ids, and where its cap
-- is not 0, no more of them are active than the cap.
pub run-IsValid :
    (max_active : ℕ) (ops : List Operation) → IsValid (run ops (new_portfolio max_active))
unfolding new_portfolio active_count
run-IsValid max_active ops =
    run-IsValid_from ops (new_portfolio max_active)
      (record { distinct = tt; capped = ground arith })
