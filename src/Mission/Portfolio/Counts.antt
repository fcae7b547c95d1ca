-- ===== src/Mission/Portfolio/Counts.antt =====
-- What insertions and updates do to the ids of a portfolio and to the number of its active missions.
use the_foundry.Prelude.{
  suc, ◌≤◌, ◌≡◌, inl, inr, refl, sym, ap, ◌∙◌, false, ◌==◌, eq_iff, String, List, [], ◌∷◌, arith,
  insert_sorted, any-insert_sorted, Bool-cases, if◌then◌else◌,
}
use the_foundry.Mission.Portfolio.{PortfolioMission, has, modify, active_count, by_id}

abbrev pub IsDistinct : List PortfolioMission → Type 0
IsDistinct [] = Unit
IsDistinct (m ∷ ms) = (has m.id ms ≡ false) × IsDistinct ms

-- Inserting a mission of a new id.
pub insert-IsDistinct :
    (m : PortfolioMission) (ms : List PortfolioMission)
    → has m.id ms ≡ false
    → IsDistinct ms
    → IsDistinct (insert_sorted by_id m ms)
unfolding insert_sorted
insert-IsDistinct m [] new d = (refl, tt)
insert-IsDistinct m (x ∷ ms) new (head, d) = elim (Bool-cases (by_id x m)) [
  | inl before ↦ rw before (
    any-insert_sorted by_id (λ y. y.id == x.id) m ms
        ∙ ground (arith, eq_iff m.id x.id, eq_iff x.id m.id, new, head),
    insert-IsDistinct m ms (ground (arith, new)) d,
  )
  | inr after ↦ rw after (ground (arith, eq_iff m.id x.id, eq_iff x.id m.id, new), (head, d))
]

pub active_count-insert :
    (m : PortfolioMission) (ms : List PortfolioMission)
    → active_count (insert_sorted by_id m ms) ≡ active_count (m ∷ ms)
unfolding insert_sorted active_count
active_count-insert m [] = refl
active_count-insert m (x ∷ ms) = ground (arith, active_count-insert m ms)

-- An update that keeps ids.
module _ (f : PortfolioMission → PortfolioMission)
    (same : (m : PortfolioMission) → (f m).id ≡ m.id) where
  pub has-modify : (id k : String) (ms : List PortfolioMission) → has k (modify id f ms) ≡ has k ms
  unfolding modify
  has-modify id k [] = refl
  has-modify id k (m ∷ ms) = elim (Bool-cases (m.id == id)) [
    | inl here ↦ rw (here, same m, has-modify id k ms) refl
    | inr there ↦ rw (there, has-modify id k ms) refl
  ]

  pub kept_id : (id : String) (m : PortfolioMission) → (if m.id == id then f m else m).id ≡ m.id
  kept_id id m = ground (arith, same m)

  pub modify-IsDistinct :
      (id : String) (ms : List PortfolioMission) → IsDistinct ms → IsDistinct (modify id f ms)
  unfolding modify
  modify-IsDistinct id [] d = tt
  modify-IsDistinct id (m ∷ ms) (head, d) = (
    ap (λ k. has k (modify id f ms)) (kept_id id m) ∙ has-modify id m.id ms ∙ head,
    modify-IsDistinct id ms d,
  )

  pub modify-absent :
      (id : String) (ms : List PortfolioMission) → has id ms ≡ false → modify id f ms ≡ ms
  unfolding modify
  modify-absent id [] e = refl
  modify-absent id (m ∷ ms) e =
      let other : (m.id == id) ≡ false = ground (arith, e) in
      rw other
        (ap {B = List PortfolioMission} (λ r. m ∷ r) (modify-absent id ms (ground (arith, e))))

  pub active_count-modify :
      (id : String) (ms : List PortfolioMission)
      → ((m : PortfolioMission) → (f m).active ≡ m.active)
      → active_count (modify id f ms) ≡ active_count ms
  unfolding modify active_count
  active_count-modify id [] kept = refl
  active_count-modify id (m ∷ ms) kept = ground (arith, kept m, active_count-modify id ms kept)

  pub active_count-modify_one :
      (id : String) (ms : List PortfolioMission)
      → IsDistinct ms
      → active_count (modify id f ms) ≤ suc (active_count ms)
  unfolding active_count modify
  active_count-modify_one id [] d = omega arith
  active_count-modify_one id (m ∷ ms) (head, d) = elim (Bool-cases (m.id == id)) [
    | inl here ↦
        let rest =
          modify-absent id ms (ap (λ k. has k ms) (sym ((eq_iff m.id id).0 here)) ∙ head) in
        rw here (rw rest (ground arith))
    | inr there ↦ ground (arith, there, active_count-modify_one id ms d)
  ]

  pub active_count-modify_le :
      (id : String) (ms : List PortfolioMission)
      → ((m : PortfolioMission) → (f m).active ≡ false)
      → active_count (modify id f ms) ≤ active_count ms
  unfolding active_count modify
  active_count-modify_le id [] off = omega arith
  active_count-modify_le id (m ∷ ms) off = ground (arith, off m, active_count-modify_le id ms off)
