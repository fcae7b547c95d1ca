-- ===== src/Mission/Portfolio/Extremes.antt =====
-- The least and the greatest count of the active missions, and the spread between bounds.
use the_foundry.Prelude.{
  ℕ, ◌-◌, ◌≤◌, ◌≡◌, inl, inr, true, Option, none, some, List, [], ◌∷◌, arith, All, Bool-cases,
  if◌then◌else◌,
}
use the_foundry.Mission.Portfolio.{
  PortfolioMission, Portfolio, lower, higher, extremes, spread_of, fairness_spread,
}

-- The counts of the active missions lie between two bounds.
abbrev pub IsBetween : ℕ → ℕ → List PortfolioMission → Type 0
IsBetween lo hi ms = All (λ m. m.active ≡ true → (lo ≤ m.scheduled) × (m.scheduled ≤ hi)) ms

abbrev pub IsIn : ℕ → ℕ → Option ℕ → Type 0
IsIn lo hi none = Unit
IsIn lo hi (some n) = (lo ≤ n) × (n ≤ hi)

lower-IsIn :
    (lo hi : ℕ) (o : Option ℕ) (n : ℕ)
    → IsIn lo hi o
    → (lo ≤ n) × (n ≤ hi)
    → IsIn lo hi (some (lower o n))
unfolding lower
lower-IsIn lo hi none n l b = b
lower-IsIn lo hi (some k) n l b = (ground (arith, l, b), ground (arith, l, b))

higher-IsIn :
    (lo hi : ℕ) (o : Option ℕ) (n : ℕ)
    → IsIn lo hi o
    → (lo ≤ n) × (n ≤ hi)
    → IsIn lo hi (some (higher o n))
unfolding higher
higher-IsIn lo hi none n l b = b
higher-IsIn lo hi (some k) n l b = (ground (arith, l, b), ground (arith, l, b))

-- Bounds of the counts are bounds of the extremes.
extremes-IsIn :
    (lo hi : ℕ) (low high : Option ℕ) (ms : List PortfolioMission)
    → IsBetween lo hi ms
    → IsIn lo hi low
    → IsIn lo hi high
    → IsIn lo hi (extremes low high ms).0 × IsIn lo hi (extremes low high ms).1
unfolding extremes
extremes-IsIn lo hi low high [] b l h = (l, h)
extremes-IsIn lo hi low high (m ∷ ms) (here, b) l h = elim (Bool-cases m.active) [
  | inl on ↦ rw on (
      extremes-IsIn lo hi (some (lower low m.scheduled)) (some (higher high m.scheduled)) ms b
        (lower-IsIn lo hi low m.scheduled l (here on))
        (higher-IsIn lo hi high m.scheduled h (here on)))
  | inr off ↦ rw off (extremes-IsIn lo hi low high ms b l h)
]

abbrev pub IsBelow : Option ℕ → ℕ → Type 0
IsBelow none n = ⊥
IsBelow (some l) n = l ≤ n

abbrev pub IsAbove : Option ℕ → ℕ → Type 0
IsAbove none n = ⊥
IsAbove (some h) n = n ≤ h

lower-IsBelow : (low : Option ℕ) (k n : ℕ) → IsBelow low n → IsBelow (some (lower low k)) n
unfolding lower
lower-IsBelow (some l) k n b = ground (arith, b)
lower-IsBelow none k n b = absurd b

lower_new : (low : Option ℕ) (k : ℕ) → IsBelow (some (lower low k)) k
unfolding lower
lower_new (some l) k = ground arith
lower_new none k = omega arith

higher-IsAbove : (high : Option ℕ) (k n : ℕ) → IsAbove high n → IsAbove (some (higher high k)) n
unfolding higher
higher-IsAbove (some l) k n b = ground (arith, b)
higher-IsAbove none k n b = absurd b

higher_new : (high : Option ℕ) (k : ℕ) → IsAbove (some (higher high k)) k
unfolding higher
higher_new (some l) k = ground arith
higher_new none k = omega arith

-- The extremes bound what they were and every active count.
extremes-IsBelow :
    (low high : Option ℕ) (ms : List PortfolioMission) (n : ℕ)
    → IsBelow low n
    → IsBelow (extremes low high ms).0 n
unfolding extremes lower
extremes-IsBelow low high [] n b = b
extremes-IsBelow low high (m ∷ ms) n b = elim (Bool-cases m.active) [
  | inl on ↦ rw on (
      extremes-IsBelow (some (lower low m.scheduled)) (some (higher high m.scheduled)) ms n
        (lower-IsBelow low m.scheduled n b))
  | inr off ↦ rw off (extremes-IsBelow low high ms n b)
]

extremes-IsAbove :
    (low high : Option ℕ) (ms : List PortfolioMission) (n : ℕ)
    → IsAbove high n
    → IsAbove (extremes low high ms).1 n
unfolding extremes higher
extremes-IsAbove low high [] n b = b
extremes-IsAbove low high (m ∷ ms) n b = elim (Bool-cases m.active) [
  | inl on ↦ rw on (
      extremes-IsAbove (some (lower low m.scheduled)) (some (higher high m.scheduled)) ms n
        (higher-IsAbove high m.scheduled n b))
  | inr off ↦ rw off (extremes-IsAbove low high ms n b)
]

pub extremes-bound :
    (low high : Option ℕ) (ms : List PortfolioMission)
    → All
        (λ m.
          m.active ≡ true
          → IsBelow (extremes low high ms).0 m.scheduled
            × IsAbove (extremes low high ms).1 m.scheduled)
        ms
unfolding extremes
extremes-bound low high [] = tt
extremes-bound low high (m ∷ ms) = (
  (λ on.
      let low' = some (lower low m.scheduled) in
      let high' = some (higher high m.scheduled) in
      rw on (
        extremes-IsBelow low' high' ms m.scheduled (lower_new low m.scheduled),
        extremes-IsAbove low' high' ms m.scheduled (higher_new high m.scheduled),
      )),
  extremes-bound (if m.active then some (lower low m.scheduled) else low)
      (if m.active then some (higher high m.scheduled) else high) ms,
)

spread_le : (lo hi : ℕ) (a b : Option ℕ) → IsIn lo hi a → IsIn lo hi b → spread_of (a, b) ≤ hi - lo
unfolding spread_of
spread_le lo hi (some l) (some h) x y = omega (arith, x.0, y.1)
spread_le lo hi (some l) none x y = omega arith
spread_le lo hi none b x y = omega arith

-- Bounds of the counts bound the spread.
pub spread-between :
    (lo hi : ℕ) (p : Portfolio) → IsBetween lo hi p.missions → fairness_spread p ≤ hi - lo
unfolding fairness_spread
spread-between lo hi p b =
    let (x, y) = extremes-IsIn lo hi none none p.missions b tt tt in spread_le lo hi _ _ x y
