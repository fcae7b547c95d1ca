-- ===== src/Pec/Waves/Fuel.antt =====
-- The rounds that the model allows are enough.
use the_foundry.Prelude.{
  or_true, ℕ, zero, suc, ◌≤◌, ◌<◌, ◌≡◌, inl, inr, refl, subst, sym, ap, ◌∙◌, Bool, true, false,
  String, Option, none, some, List, [], ◌∷◌, arith, eqb, length, any, contains, contains_head,
  is_empty, map, sort_strings, Bool-cases, Option-cases,
}
use mathlib.Core.Option.{some-injective}
use the_foundry.Plan.{Task, task_ids}
use the_foundry.Pec.Waves.{
  Pending, entry, Proposal, waves, unknown_dependency, cycle, out_of_fuel, first_unknown,
  or_unknown, unknown_in, ready, remove_placed, settle_all, put_first, layer, propose_known,
  propose_waves, add_all,
}
use the_foundry.Pec.Waves.Sets.{contains-sort_strings}

abbrev pub ran_out : Proposal → Bool
ran_out (waves ws) = false
ran_out (unknown_dependency t d) = false
ran_out (cycle ids) = false
ran_out out_of_fuel = true

ran_out-put_first : (wave : List String) (p : Proposal) → ran_out (put_first wave p) ≡ ran_out p
unfolding put_first
ran_out-put_first wave (waves ws) = refl
ran_out-put_first wave (unknown_dependency t d) = refl
ran_out-put_first wave (cycle ids) = refl
ran_out-put_first wave out_of_fuel = refl

length-settle_all :
    (wave : List String) (ps : List Pending) → length (settle_all wave ps) ≡ length ps
unfolding settle_all
length-settle_all wave [] = refl
length-settle_all wave (p ∷ ps) = ap suc (length-settle_all wave ps)

remove_placed-le :
    (wave : List String) (ps : List Pending) → length (remove_placed wave ps) ≤ length ps
unfolding remove_placed
remove_placed-le wave [] = omega arith
remove_placed-le wave (p ∷ ps) = ground (arith, remove_placed-le wave ps)

remove_placed-lt :
    (wave : List String) (ps : List Pending)
    → any (λ p. contains wave p.id) ps ≡ true
    → length (remove_placed wave ps) < length ps
unfolding remove_placed
remove_placed-lt wave [] e = cc
remove_placed-lt wave (p ∷ ps) e = elim (Bool-cases (contains wave p.id)) [
  | inl gone ↦ rw gone (omega (arith, remove_placed-le wave ps))
  | inr kept ↦ rw kept (omega (arith, remove_placed-lt wave ps (rw kept at e)))
]

ready-any :
    (ps : List Pending)
    → is_empty (ready ps) ≡ false
    → any (λ p. contains (ready ps) p.id) ps ≡ true
unfolding ready
ready-any [] e = cc
ready-any (p ∷ ps) e = elim (Bool-cases (eqb p.in_degree 0)) [
  | inl now ↦ rw now (rw (contains_head p.id (ready ps)) refl)
  | inr later ↦
      let same : ready (p ∷ ps) ≡ ready ps = rw later refl in
      subst (λ w. any (λ q. contains w q.id) (p ∷ ps) ≡ true) (sym same)
        (or_true (contains (ready ps) p.id) (ready-any ps (ap is_empty (sym same) ∙ e)))
]

sorted-any :
    (wave : List String) (ps : List Pending)
    → any (λ p. contains (sort_strings wave) p.id) ps ≡ any (λ p. contains wave p.id) ps
sorted-any wave [] = refl
sorted-any wave (p ∷ ps) = cc (contains-sort_strings wave p.id, sorted-any wave ps)

layer-runs : (fuel : ℕ) (ps : List Pending) → length ps ≤ fuel → ran_out (layer fuel ps) ≡ false
unfolding layer
layer-runs zero [] le = refl
layer-runs (suc fuel) [] le = refl
layer-runs zero (p ∷ ps) le = absurd (omega arith)
layer-runs (suc fuel) (p ∷ ps) le = elim (Bool-cases (is_empty (ready (p ∷ ps)))) [
  | inl stuck ↦ rw stuck
  | inr some_ ↦
      let wave = sort_strings (ready (p ∷ ps)) in
      let rest = remove_placed wave (p ∷ ps) in
      let shorter : length rest < suc (length ps) =
        remove_placed-lt wave (p ∷ ps)
          (sorted-any (ready (p ∷ ps)) (p ∷ ps) ∙ ready-any (p ∷ ps) some_) in
      rw some_ (
        ran_out-put_first wave (layer fuel (settle_all wave rest))
        ∙ layer-runs fuel (settle_all wave rest) (omega (arith, length-settle_all wave rest)))
]

or_unknown-some :
    (o : Option String) (task : String) (later : Option Proposal) (p : Proposal)
    → (later ≡ some p → (t d : String) × (p ≡ unknown_dependency t d))
    → or_unknown o task later ≡ some p
    → (t d : String) × (p ≡ unknown_dependency t d)
unfolding or_unknown
or_unknown-some none task later p run e = run e
or_unknown-some (some dep) task later p run e = (task, dep, sym (some-injective _ p e))

-- What the check of the dependencies refuses with.
pub unknown_in-some :
    (ids : List String) (tasks : List Task) (p : Proposal)
    → unknown_in ids tasks ≡ some p
    → (t d : String) × (p ≡ unknown_dependency t d)
unfolding unknown_in
unknown_in-some ids [] p e = cc
unknown_in-some ids (t ∷ ts) p e =
    or_unknown-some (first_unknown ids t.depends_on) t.id (unknown_in ids ts) p
      (unknown_in-some ids ts p) e

-- ProposeWaves ends on every document: as many rounds as there are ids suffice.
pub propose_waves_ends : (tasks : List Task) → ran_out (propose_waves tasks) ≡ false
unfolding propose_waves propose_known
propose_waves_ends tasks = elim (Option-cases (unknown_in (task_ids tasks) tasks)) [
  | inl known ↦
      rw known (layer-runs _ (map (entry tasks) (add_all (task_ids tasks) [])) (omega arith))
  | inr (p, found) ↦ rw found (ap ran_out (unknown_in-some (task_ids tasks) tasks p found).2)
]
