-- ===== src/Kernel/Select/Candidates.antt =====
-- What the candidates of SelectCandidates have passed.
use the_foundry.Prelude.{
  ◌≡◌, inl, inr, refl, sym, subst, ap, ◌∙◌, Bool, true, false, String, List, [], ◌∷◌, All, any,
  contains, is_empty, Bool-cases,
}
use the_foundry.Plan.{Task}
use the_foundry.Capability.{Registry}
use the_foundry.Capability.Health.{HealthSnapshot, available}
use the_foundry.Kernel.Select.{
  Selector, Selection, chosen, rejected, is_chosen, validate, Preferences, preferred, refused,
  preferences, sort_out, candidates, fall_over, select_candidates,
}
use the_foundry.Kernel.Select.Chosen.{is_supported, validate_lem}

-- Allowed by the policy, with a supported record, and as available as the snapshot says.
abbrev pub IsCandidate : List String → Registry → HealthSnapshot → Bool → String → Type 0
IsCandidate allow reg health up n =
    (contains allow n ≡ true) × (any (is_supported n) reg ≡ true) × (available health n ≡ up)

passed :
    (name : String) (allow : List String) (reg : Registry) (v : Selection)
    → validate name allow reg ≡ v
    → is_chosen v ≡ true
    → (contains allow name ≡ true) × (any (is_supported name) reg ≡ true)
passed name allow reg (rejected n r) e ok = cc
passed name allow reg (chosen n) e ok =
    let (same, allowed, there) = validate_lem name n allow reg e in
    (
      ap (contains allow) (sym same) ∙ allowed,
      ap (λ x. any (is_supported x) reg) (sym same) ∙ there,
    )

sort_out_lem :
    (prefs allow : List String) (reg : Registry) (health : HealthSnapshot)
    → let (kept, skipped) = sort_out prefs allow reg health in
      All (IsCandidate allow reg health true) kept
      × All (IsCandidate allow reg health false) skipped
unfolding sort_out
sort_out_lem [] allow reg health = (tt, tt)
sort_out_lem (name ∷ prefs) allow reg health =
    let (kept, skipped) = sort_out_lem prefs allow reg health in
    elim (Bool-cases (is_chosen (validate name allow reg))) [
      | inr bad ↦ rw bad (kept, skipped)
      | inl okay ↦
          let (allowed, there) = passed name allow reg _ refl okay in
          elim (Bool-cases (available health name)) [
            | inl up ↦ rw (okay, up) (((allowed, there, up), kept), skipped)
            | inr down ↦ rw (okay, down) (kept, ((allowed, there, down), skipped))
          ]
    ]

fall_over_lem :
    (p : Preferences) (allow : List String) (reg : Registry) (health : HealthSnapshot)
    (kept skipped : List String)
    → fall_over p allow reg health ≡ candidates kept skipped
    → (is_empty kept ≡ false)
      × All (IsCandidate allow reg health true) kept
      × All (IsCandidate allow reg health false) skipped
unfolding fall_over
fall_over_lem (refused reason) allow reg health kept skipped e = cc
fall_over_lem (preferred prefs) allow reg health kept skipped e =
    let out = sort_out prefs allow reg health in
    let (good, bad) = sort_out_lem prefs allow reg health in
    elim (Bool-cases (is_empty out.0)) [
      | inl nothing ↦ cc (rw nothing at e)
      | inr something ↦
          let same : candidates out.0 out.1 ≡ candidates kept skipped = rw something at e in
          let same_kept : out.0 ≡ kept = cc in
          let same_skipped : out.1 ≡ skipped = cc in
          (
            ap is_empty (sym same_kept) ∙ something,
            subst (All (IsCandidate allow reg health true)) same_kept good,
            subst (All (IsCandidate allow reg health false)) same_skipped bad,
          )
    ]

-- Falling over never leaves the policy: where candidates are returned, there is at least one, every
-- one is allowed, has a supported record and is available, and what is skipped differs only in that
-- it is not available.
pub candidates_allowed :
    (s : Selector) (task : Task) (allow : List String) (reg : Registry) (health : HealthSnapshot)
    (kept skipped : List String)
    → select_candidates s task allow reg health ≡ candidates kept skipped
    → (is_empty kept ≡ false)
      × All (IsCandidate allow reg health true) kept
      × All (IsCandidate allow reg health false) skipped
unfolding select_candidates
candidates_allowed s task allow reg health kept skipped e =
    fall_over_lem (preferences s task) allow reg health kept skipped e
