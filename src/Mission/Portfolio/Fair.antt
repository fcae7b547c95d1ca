-- ===== src/Mission/Portfolio/Fair.antt =====
-- The scheduler picks an active mission of the least count, and keeps the counts together.
use the_foundry.Prelude.{
  ℕ, ◌+◌, ◌-◌, ◌≤◌, ◌≡◌, ◌⊎◌, inl, inr, refl, sym, ap, ◌∙◌, subst, Bool, true, false, ◌&&◌, ◌==◌,
  eq_iff, Option, none, some, List, [], ◌∷◌, arith, ltb, All, Bool-cases, if◌then◌else◌,
}
use mathlib.Core.Option.{some-injective}
use the_foundry.Mission.Portfolio.{PortfolioMission, has, modify, fewer, pick, bump, spread_of}
use the_foundry.Mission.Portfolio.Counts.{IsDistinct}
use the_foundry.Mission.Portfolio.Extremes.{IsBetween, IsBelow, IsAbove}

-- One of the missions.
abbrev pub IsOf : PortfolioMission → List PortfolioMission → Type 0
IsOf m [] = ⊥
IsOf m (x ∷ ms) = (x ≡ m) ⊎ IsOf m ms

abbrev pub IsAtMost : PortfolioMission → Option PortfolioMission → Type 0
IsAtMost m none = Unit
IsAtMost m (some b) = m.scheduled ≤ b.scheduled

-- Where a pick comes from: it is the pick so far, or an active mission of the list.
abbrev pub IsFrom : Option PortfolioMission → List PortfolioMission → PortfolioMission → Type 0
IsFrom best ms m = (best ≡ some m) ⊎ (IsOf m ms × (m.active ≡ true))

IsFrom-first :
    (x m : PortfolioMission) (ms : List PortfolioMission)
    → x.active ≡ true
    → IsFrom (some x) ms m
    → IsOf m (x ∷ ms) × (m.active ≡ true)
IsFrom-first x m ms on (inl e) =
    let same = some-injective x m e in
    (inl same, subst (λ (z : PortfolioMission). z.active ≡ true) same on)
IsFrom-first x m ms on (inr (there, active)) = (inr there, active)

IsFrom-rest :
    (best : Option PortfolioMission) (x m : PortfolioMission) (ms : List PortfolioMission)
    → IsFrom best ms m
    → IsFrom best (x ∷ ms) m
IsFrom-rest best x m ms (inl e) = inl e
IsFrom-rest best x m ms (inr (there, active)) = inr (inr there, active)

abbrev pub IsLeast : PortfolioMission → List PortfolioMission → Type 0
IsLeast m ms = All (λ x. x.active ≡ true → m.scheduled ≤ x.scheduled) ms

-- What the loop picks has the least count.
pub pick-IsLeast :
    (best : Option PortfolioMission) (ms : List PortfolioMission) (m : PortfolioMission)
    → pick best ms ≡ some m
    → IsAtMost m best × IsLeast m ms × IsFrom best ms m
unfolding pick fewer
pick-IsLeast none [] m e = cc
pick-IsLeast (some b) [] m e =
    let same = some-injective b m e in
    (subst (λ (z : PortfolioMission). z.scheduled ≤ b.scheduled) same (omega arith), tt, inl e)
pick-IsLeast none (x ∷ ms) m e = elim (Bool-cases x.active) [
  | inl on ↦
      let (first, least, from) =
        pick-IsLeast (some x) ms m
          (sym (ap (λ t. pick (if t && fewer x none then some x else none) ms) on) ∙ e) in
      (tt, ((λ _. first), least), inr (IsFrom-first x m ms on from))
  | inr off ↦
      let (first, least, from) =
        pick-IsLeast none ms m
          (sym (ap (λ t. pick (if t && fewer x none then some x else none) ms) off) ∙ e) in
      (tt, ((λ on. cc), least), IsFrom-rest none x m ms from)
]
pick-IsLeast (some b) (x ∷ ms) m e = elim (Bool-cases (x.active && ltb x.scheduled b.scheduled)) [
  | inl wins ↦
      let (first, least, from) = pick-IsLeast (some x) ms m (rw wins at e) in
      (
        ground (arith, first, wins),
        ((λ _. first), least),
        inr (IsFrom-first x m ms (ground (arith, wins)) from),
      )
  | inr kept ↦
      let (first, least, from) = pick-IsLeast (some b) ms m (rw kept at e) in
      (first, ((λ on. ground (arith, first, kept, on)), least), IsFrom-rest (some b) x m ms from)
]

of_has : (m : PortfolioMission) (ms : List PortfolioMission) → IsOf m ms → has m.id ms ≡ true
of_has m [] x = absurd x
of_has m (x ∷ ms) (inl same) =
    ground (arith, ap (λ (z : PortfolioMission). z.id) same, eq_iff x.id m.id)
of_has m (x ∷ ms) (inr there) = ground (arith, of_has m ms there)

none_of :
    (m : PortfolioMission) (ms : List PortfolioMission)
    → has m.id ms ≡ false
    → All (λ x. x.id ≡ m.id → x ≡ m) ms
none_of m [] e = tt
none_of m (x ∷ ms) e = (
  (λ same. clash (ground (arith, e)) ((eq_iff x.id m.id).1 same)),
  none_of m ms (ground (arith, e)),
)
  where
    clash : {A : Type 0} {b : Bool} → b ≡ false → b ≡ true → A
    clash n e = cc

-- Missions of one id are one mission.
pub same_mission :
    (m : PortfolioMission) (ms : List PortfolioMission)
    → IsDistinct ms
    → IsOf m ms
    → All (λ x. x.id ≡ m.id → x ≡ m) ms
same_mission m [] d x = absurd x
same_mission m (x ∷ ms) (head, d) (inl here) =
    ((λ _. here), none_of m ms (ap (λ (z : PortfolioMission). has z.id ms) (sym here) ∙ head))
same_mission m (x ∷ ms) (head, d) (inr there) = (
  (λ same. clash (ap (λ k. has k ms) (sym same) ∙ head) (of_has m ms there)),
  same_mission m ms d there,
)
  where
    clash : {A : Type 0} {b : Bool} → b ≡ false → b ≡ true → A
    clash n e = cc

-- A turn of the mission with the least count, where the counts lie between bounds.
bump_one :
    (lo hi : ℕ) (m x : PortfolioMission)
    → (x.active ≡ true → (lo ≤ x.scheduled) × (x.scheduled ≤ hi))
    → (x.id ≡ m.id → x ≡ m)
    → m.scheduled + 1 ≤ hi
    → let y = if x.id == m.id then bump x else x in
      y.active ≡ true → (lo ≤ y.scheduled) × (y.scheduled ≤ hi)
bump_one lo hi m x here is room = elim (Bool-cases (x.id == m.id)) [
  | inl e ↦
      let count : x.scheduled ≡ m.scheduled =
        ap (λ (z : PortfolioMission). z.scheduled) (is ((eq_iff x.id m.id).0 e)) in
      rw e λ on. (omega (arith, (here on).0), omega (arith, count, room))
  | inr n ↦ rw n here
]

pub bump-IsBetween :
    (lo hi : ℕ) (m : PortfolioMission) (ms : List PortfolioMission)
    → IsBetween lo hi ms
    → All (λ x. x.id ≡ m.id → x ≡ m) ms
    → m.scheduled + 1 ≤ hi
    → IsBetween lo hi (modify m.id bump ms)
unfolding modify
bump-IsBetween lo hi m [] b same room = tt
bump-IsBetween lo hi m (x ∷ ms) (here, b) (is, same) room =
    (bump_one lo hi m x here is room, bump-IsBetween lo hi m ms b same room)

none_below :
    (h : Option ℕ) (m : PortfolioMission) (ms : List PortfolioMission)
    → All (λ x. x.active ≡ true → ⊥ × IsAbove h x.scheduled) ms
    → IsOf m ms
    → m.active ≡ true
    → ⊥
none_below h m [] b of on = of
none_below h m (x ∷ ms) (here, b) (inl same) on =
    (here (ap (λ (z : PortfolioMission). z.active) same ∙ on)).0
none_below h m (x ∷ ms) (here, b) (inr of) on = none_below h m ms b of on

none_above :
    (l : ℕ) (m : PortfolioMission) (ms : List PortfolioMission)
    → All (λ x. x.active ≡ true → (l ≤ x.scheduled) × ⊥) ms
    → IsOf m ms
    → m.active ≡ true
    → ⊥
none_above l m [] b of on = of
none_above l m (x ∷ ms) (here, b) (inl same) on =
    (here (ap (λ (z : PortfolioMission). z.active) same ∙ on)).1
none_above l m (x ∷ ms) (here, b) (inr of) on = none_above l m ms b of on

-- The bounds that the extremes are, if some mission is active.
pub tight :
    (o : Option ℕ × Option ℕ) (m : PortfolioMission) (ms : List PortfolioMission)
    → All (λ x. x.active ≡ true → IsBelow o.0 x.scheduled × IsAbove o.1 x.scheduled) ms
    → IsOf m ms
    → m.active ≡ true
    → (lo : ℕ) × (hi : ℕ) × IsBetween lo hi ms × (spread_of o ≡ hi - lo)
unfolding spread_of
tight (some lo, some hi) m ms b of on = (lo, hi, b, refl)
tight (none, h) m ms b of on = absurd (none_below h m ms b of on)
tight (some lo, none) m ms b of on = absurd (none_above lo m ms b of on)

-- The mission that is picked is active and of the least count.
pub least_in_bounds :
    (lo hi : ℕ) (m : PortfolioMission) (ms : List PortfolioMission)
    → IsBetween lo hi ms
    → IsOf m ms
    → m.active ≡ true
    → (lo ≤ m.scheduled) × (m.scheduled ≤ hi)
least_in_bounds lo hi m [] b of on = absurd of
least_in_bounds lo hi m (x ∷ ms) (here, b) (inl same) on =
    subst (λ (z : PortfolioMission). z.active ≡ true → (lo ≤ z.scheduled) × (z.scheduled ≤ hi)) same
      here on
least_in_bounds lo hi m (x ∷ ms) (here, b) (inr of) on = least_in_bounds lo hi m ms b of on
