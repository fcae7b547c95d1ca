-- ===== src/Pec/Waves/Placed.antt =====
-- Every task is placed, and the waves of ProposeWaves as a whole.
use the_foundry.Prelude.{
  ℕ, zero, suc, ◌≡◌, inl, inr, refl, sym, ap, ◌∙◌, Bool, true, false, ◌||◌, ◌==◌, eq_iff, String,
  List, [], ◌∷◌, arith, length, any, All, contains, is_empty, map, sort_strings, Bool-cases,
  Option-cases, String-cases,
}
use the_foundry.Plan.{Task, task_ids}
use the_foundry.Pec.Waves.{
  Pending, entry, waves, unknown_in, ready, remove_placed, settle_one, settle, settle_all, layer,
  propose_known, propose_waves, add_all,
}
use the_foundry.Pec.Waves.Sets.{contains-add_all, contains-deps_of}
use the_foundry.Pec.Waves.Fuel.{unknown_in-some}
use the_foundry.Pec.Waves.Layered.{IsLayered, Sound, put_first-waves, layer-IsLayered}

-- An entry of this id, and a wave with it.
abbrev has : List Pending → String → Bool
has ps id = any (λ p. p.id == id) ps

abbrev pub is_placed : List (List String) → String → Bool
is_placed ws id = any (λ wave. contains wave id) ws

settle_one-id : (placed : String) (p : Pending) → (settle_one placed p).id ≡ p.id
settle_one-id placed p = ground arith

settle-id : (wave : List String) (p : Pending) → (settle wave p).id ≡ p.id
unfolding settle
settle-id [] p = refl
settle-id (placed ∷ wave) p = settle-id wave (settle_one placed p) ∙ settle_one-id placed p

has-settle_all :
    (wave : List String) (ps : List Pending) (id : String) → has (settle_all wave ps) id ≡ has ps id
unfolding settle_all
has-settle_all wave [] id = refl
has-settle_all wave (p ∷ ps) id = cc (settle-id wave p, has-settle_all wave ps id)

has-remove_placed :
    (wave : List String) (ps : List Pending) (id : String)
    → contains wave id ≡ false
    → has ps id ≡ true
    → has (remove_placed wave ps) id ≡ true
unfolding remove_placed
has-remove_placed wave [] id out h = cc
has-remove_placed wave (p ∷ ps) id out h = elim (Bool-cases (contains wave p.id)) [
  | inr kept ↦ rw kept (ground (arith, has-remove_placed wave ps id out))
  | inl gone ↦ elim (String-cases p.id id) [
    | inl same ↦ cc (gone, out, same)
    | inr apart ↦ rw gone (has-remove_placed wave ps id out (ground (arith, eq_iff p.id id)))
  ]
]

is_placed-later :
    (wave : List String) (later ws : List (List String)) (id : String)
    → wave ∷ later ≡ ws
    → (contains wave id || is_placed later id) ≡ true
    → is_placed ws id ≡ true
is_placed-later wave later ws id same e = ap (λ v. is_placed v id) (sym same) ∙ e

layer-is_placed :
    (fuel : ℕ) (ps : List Pending) (ws : List (List String)) (id : String)
    → layer fuel ps ≡ waves ws
    → has ps id ≡ true
    → is_placed ws id ≡ true
unfolding layer
layer-is_placed zero [] ws id e h = cc
layer-is_placed (suc fuel) [] ws id e h = cc
layer-is_placed zero (p ∷ ps) ws id e h = cc
layer-is_placed (suc fuel) (p ∷ ps) ws id e h = elim (Bool-cases (is_empty (ready (p ∷ ps)))) [
  | inl stuck ↦ cc (rw stuck at e)
  | inr some_ ↦
      let wave = sort_strings (ready (p ∷ ps)) in
      let rest = remove_placed wave (p ∷ ps) in
      let next = settle_all wave rest in
      let (later, found, same) = put_first-waves wave (layer fuel next) ws (rw some_ at e) in
      is_placed-later wave later ws id same (elim (Bool-cases (contains wave id)) [
        | inl now ↦ rw now
        | inr out ↦ rw out (
            layer-is_placed fuel next later id found
              (has-settle_all wave rest id ∙ has-remove_placed wave (p ∷ ps) id out h))
      ])
]

has-entries :
    (tasks : List Task) (ids : List String) (id : String)
    → has (map (entry tasks) ids) id ≡ contains ids id
has-entries tasks [] id = refl
has-entries tasks (x ∷ ids) id = cc (has-entries tasks ids id)

entries-Sound :
    (tasks : List Task) (ids : List String) → All (Sound tasks []) (map (entry tasks) ids)
entries-Sound tasks [] = tt
entries-Sound tasks (id ∷ ids) = (
  record { counted = omega arith; covered = λ d h. contains-deps_of id d tasks ∙ h },
  entries-Sound tasks ids,
)

-- Waves are only proposed if every task of the document is in one, and everything that a task depends
-- on is in an earlier wave than the task.
pub propose_waves-IsLayered :
    (tasks : List Task) (ws : List (List String))
    → propose_waves tasks ≡ waves ws
    → IsLayered tasks [] ws
      × ((id : String) → contains (task_ids tasks) id ≡ true → is_placed ws id ≡ true)
unfolding propose_waves propose_known
propose_waves-IsLayered tasks ws e = elim (Option-cases (unknown_in (task_ids tasks) tasks)) [
  | inr (refused, found) ↦
      cc (rw found at e, (unknown_in-some (task_ids tasks) tasks refused found).2)
  | inl known ↦
      let ids = add_all (task_ids tasks) [] in
      let run : layer (length (map (entry tasks) ids)) (map (entry tasks) ids) ≡ waves ws =
        rw known at e in
      (
        layer-IsLayered tasks _ (map (entry tasks) ids) [] ws (entries-Sound tasks ids) run,
        λ id h. layer-is_placed _ (map (entry tasks) ids) ws id run (
            has-entries tasks ids id ∙ contains-add_all (task_ids tasks) id [] ∙ ground (arith, h)),
      )
]
