-- ===== src/Mission/Portfolio/Turns.antt =====
-- Turns of the scheduler, one and many.
use the_foundry.Prelude.{
  ℕ, zero, suc, ◌+◌, ◌≤◌, ◌≡◌, ◌≢◌, ◌⊎◌, inl, inr, refl, sym, ap, ◌∙◌, true, ◌&&◌, Option, none,
  some, List, [], ◌∷◌, arith, ltb, length, Bool-cases, Option-cases, if◌then◌else◌,
}
use the_foundry.Mission.Portfolio.{
  PortfolioMission, Portfolio, modify, active_count, fewer, pick, bump, take_turn, next_scheduled,
  schedule, and_later, extremes, fairness_spread,
}
use the_foundry.Mission.Portfolio.Counts.{IsDistinct, modify-IsDistinct, active_count-modify}
use the_foundry.Mission.Portfolio.Extremes.{IsBetween, spread-between, extremes-bound}
use the_foundry.Mission.Portfolio.Fair.{
  IsFrom, IsOf, IsLeast, pick-IsLeast, same_mission, bump-IsBetween, tight, least_in_bounds,
}

IsBetween-least :
    (lo hi : ℕ) (m : PortfolioMission) (ms : List PortfolioMission)
    → IsBetween lo hi ms
    → IsLeast m ms
    → IsBetween m.scheduled hi ms
IsBetween-least lo hi m [] b l = tt
IsBetween-least lo hi m (x ∷ ms) (here, b) (first, l) =
    ((λ on. (first on, (here on).1)), IsBetween-least lo hi m ms b l)

widen :
    (lo hi hi' : ℕ) (ms : List PortfolioMission)
    → hi ≤ hi'
    → IsBetween lo hi ms
    → IsBetween lo hi' ms
widen lo hi hi' [] le b = tt
widen lo hi hi' (x ∷ ms) le (here, b) =
    ((λ on. ((here on).0, omega (arith, le, (here on).1))), widen lo hi hi' ms le b)

-- No more than 1, or than it was.
abbrev pub IsFairer : ℕ → ℕ → Type 0
IsFairer before after = (after ≤ 1) ⊎ (after ≤ before)

turn_fair :
    (p : Portfolio) (m : PortfolioMission)
    → IsDistinct p.missions
    → IsLeast m p.missions
    → IsOf m p.missions
    → m.active ≡ true
    → IsFairer
        (fairness_spread p)
        (fairness_spread (record p { missions = modify m.id bump p.missions }))
unfolding fairness_spread
turn_fair p m distinct least of on =
    let (lo, hi, b, spread) =
      tight (extremes none none p.missions) m p.missions (extremes-bound none none p.missions) of
        on in
    let (above, below) = least_in_bounds lo hi m p.missions b of on in
    let close = IsBetween-least lo hi m p.missions b least in
    let same = same_mission m p.missions distinct of in
    let after : Portfolio = record p { missions = modify m.id bump p.missions } in
    elim (Bool-cases (ltb m.scheduled hi)) [
      | inl room ↦
          let le =
            spread-between m.scheduled hi after
              (bump-IsBetween m.scheduled hi m p.missions close same (ground (arith, room))) in
          inr (ground (arith, le, spread, above))
      | inr tight_up ↦
          let wide =
            widen m.scheduled hi (m.scheduled + 1) p.missions (ground (arith, tight_up, below))
              close in
          let le =
            spread-between m.scheduled (m.scheduled + 1) after
              (bump-IsBetween m.scheduled (m.scheduled + 1) m p.missions wide same (omega arith)) in
          inl (omega (arith, le))
    ]

from_list :
    (m : PortfolioMission) (ms : List PortfolioMission)
    → IsFrom none ms m
    → IsOf m ms × (m.active ≡ true)
from_list m ms (inl e) = cc
from_list m ms (inr x) = x

-- In a portfolio of distinct ids, a turn goes to an active mission with the least count, and adds 1 to
-- its count alone; or no mission is active, and nothing changes. The spread is then at most 1, or at most
-- what it was.
pub next_scheduled-fair :
    (p : Portfolio)
    → IsDistinct p.missions
    → let (turn, after) = next_scheduled p in
      (((turn ≡ none) × (after ≡ p))
        ⊎ ((m : PortfolioMission) × (turn ≡ some m.id)
            × IsOf m p.missions
            × (m.active ≡ true)
            × IsLeast m p.missions
            × (after ≡ record p { missions = modify m.id bump p.missions })))
      × IsFairer (fairness_spread p) (fairness_spread after)
unfolding next_scheduled take_turn
next_scheduled-fair p distinct = elim (Option-cases (pick none p.missions)) [
  | inl idle ↦ rw idle (inl (refl, refl), inr (omega arith))
  | inr (m, picked) ↦
      let (_, least, from) = pick-IsLeast none p.missions m picked in
      let (of, on) = from_list m p.missions from in
      rw picked (inr (m, refl, of, on, least, refl), turn_fair p m distinct least of on)
]

IsFairer-trans : (a b c : ℕ) → IsFairer a b → IsFairer b c → IsFairer a c
IsFairer-trans a b c p q = ground (arith, p, q)

next_scheduled-IsDistinct :
    (p : Portfolio) → IsDistinct p.missions → IsDistinct (next_scheduled p).1.missions
unfolding next_scheduled take_turn
next_scheduled-IsDistinct p d = elim (Option-cases (pick none p.missions)) [
  | inl idle ↦ rw idle d
  | inr (m, picked) ↦ rw picked (modify-IsDistinct bump (λ m. refl) m.id p.missions d)
]

pick-none :
    (best : Option PortfolioMission) (ms : List PortfolioMission)
    → pick best ms ≡ none
    → (best ≡ none) × (active_count ms ≡ 0)
unfolding pick fewer active_count
pick-none best [] e = (e, refl)
pick-none none (x ∷ ms) e = elim (Bool-cases x.active) [
  | inl on ↦
      let e' = sym (ap (λ t. pick (if t && fewer x none then some x else none) ms) on) ∙ e in
      cc (pick-none (some x) ms e').0
  | inr off ↦
      let e' = sym (ap (λ t. pick (if t && fewer x none then some x else none) ms) off) ∙ e in
      (refl, ground (arith, off, (pick-none none ms e').1))
]
pick-none (some b) (x ∷ ms) e = elim (Bool-cases (x.active && ltb x.scheduled b.scheduled)) [
  | inl wins ↦ cc (pick-none (some x) ms (rw wins at e)).0
  | inr kept ↦ cc (pick-none (some b) ms (rw kept at e)).0
]

next_scheduled-active_count :
    (p : Portfolio) → active_count (next_scheduled p).1.missions ≡ active_count p.missions
unfolding next_scheduled take_turn
next_scheduled-active_count p = elim (Option-cases (pick none p.missions)) [
  | inl idle ↦ rw idle refl
  | inr (m, picked) ↦ rw picked (active_count-modify bump (λ m. refl) m.id p.missions λ m. refl)
]

idle_count : (p : Portfolio) → (next_scheduled p).0 ≡ none → active_count p.missions ≡ 0
unfolding next_scheduled take_turn
idle_count p e = elim (Option-cases (pick none p.missions)) [
  | inl idle ↦ (pick-none none p.missions idle).1
  | inr (m, picked) ↦ cc (rw picked at e)
]

-- In a portfolio of distinct ids, any number of turns leaves the spread at most 1, or at most what it
-- was; and if a mission is active, every one of the turns goes to a mission.
pub schedule-fair :
    (rounds : ℕ) (p : Portfolio)
    → IsDistinct p.missions
    → IsFairer (fairness_spread p) (fairness_spread (schedule rounds p).1)
      × (active_count p.missions ≢ 0 → length (schedule rounds p).0 ≡ rounds)
unfolding schedule and_later
schedule-fair zero p d = (inr (omega arith), λ a. refl)
schedule-fair (suc rounds) p d =
    let after = (next_scheduled p).1 in
    let (fair, full) = schedule-fair rounds after (next_scheduled-IsDistinct p d) in
    elim (Option-cases (next_scheduled p).0) [
      | inl idle ↦ rw idle ((next_scheduled-fair p d).1, λ a. absurd (a (idle_count p idle)))
      | inr (id, turn) ↦ rw turn (
        IsFairer-trans (fairness_spread p) (fairness_spread after) _ (next_scheduled-fair p d).1
            fair,
        λ a. ap suc (full λ z. a (sym (next_scheduled-active_count p) ∙ z)),
      )
    ]
