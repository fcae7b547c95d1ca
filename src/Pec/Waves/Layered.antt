-- ===== src/Pec/Waves/Layered.antt =====
-- Every dependency of a task in a wave lies in an earlier one.
use the_foundry.Prelude.{
  ℕ, zero, suc, ◌≤◌, ◌≡◌, inl, inr, refl, subst, sym, ap, ◌∙◌, true, ◌||◌, ◌++◌, eq_iff, String,
  List, [], ◌∷◌, arith, eqb, length, All, contains, contains-append, is_empty, sort_strings,
  Bool-cases, String-cases,
}
use the_foundry.Plan.{Task}
use the_foundry.Pec.Waves.{
  Pending, Proposal, waves, unknown_dependency, cycle, out_of_fuel, ready, remove_placed,
  settle_one, settle, settle_all, put_first, layer,
}
use the_foundry.Pec.Waves.Sets.{depends, contains-remove, remove-lt, contains-sort_strings}

-- In each wave, what a task depends on has been placed before, in an earlier wave or in `done`.
abbrev pub IsLayered : List Task → List String → List (List String) → Type 0
IsLayered tasks done [] = Unit
IsLayered tasks done (wave ∷ later) =
    ((id d : String) → contains wave id ≡ true → depends id d tasks ≡ true → contains done d ≡ true)
    × IsLayered tasks (wave ++ done) later

-- The in-degree counts at least what is left, and what is not left is done.
pub record Sound (tasks : List Task) (done : List String) (p : Pending) : Type 0 where
  pub counted : length p.deps ≤ p.in_degree
  pub covered :
      (d : String) → depends p.id d tasks ≡ true → (contains done d || contains p.deps d) ≡ true

abbrev Includes : List String → List String → Type 0
Includes small large = (d : String) → contains small d ≡ true → contains large d ≡ true

Sound-more :
    (tasks : List Task) (small large : List String) (p : Pending)
    → Includes small large
    → Sound tasks small p
    → Sound tasks large p
Sound-more tasks small large p inc s = record {
  counted = s.counted;
  covered = λ d h. ground (arith, inc d, s.covered d h);
}

settle_one-Sound :
    (tasks : List Task) (done : List String) (placed : String) (p : Pending)
    → Sound tasks done p
    → Sound tasks (placed ∷ done) (settle_one placed p)
settle_one-Sound tasks done placed p s = elim (Bool-cases (contains p.deps placed)) [
  | inr free ↦ rw free (Sound-more tasks done (placed ∷ done) p (λ d h. ground arith) s)
  | inl waits ↦ rw waits (record {
    counted = omega (arith, remove-lt placed p.deps waits, s.counted);
    covered = λ d h. ground (arith, contains-remove placed d p.deps, s.covered d h);
  })
]

settle-Sound :
    (tasks : List Task) (done wave : List String) (p : Pending)
    → Sound tasks done p
    → Sound tasks (wave ++ done) (settle wave p)
unfolding settle
settle-Sound tasks done [] p s = s
settle-Sound tasks done (placed ∷ wave) p s =
    Sound-more tasks (wave ++ (placed ∷ done)) ((placed ∷ wave) ++ done)
      (settle wave (settle_one placed p))
      (λ d h. ground (arith, contains-append wave (placed ∷ done) d, contains-append wave done d))
      (settle-Sound tasks (placed ∷ done) wave (settle_one placed p)
        (settle_one-Sound tasks done placed p s))

settle_all-Sound :
    (tasks : List Task) (done wave gone : List String) (ps : List Pending)
    → All (Sound tasks done) ps
    → All (Sound tasks (wave ++ done)) (settle_all wave (remove_placed gone ps))
unfolding settle_all remove_placed
settle_all-Sound tasks done wave gone [] s = tt
settle_all-Sound tasks done wave gone (p ∷ ps) s = elim (Bool-cases (contains gone p.id)) [
  | inl placed ↦ rw placed (settle_all-Sound tasks done wave gone ps s.1)
  | inr waits ↦
      rw waits (settle-Sound tasks done wave p s.0, settle_all-Sound tasks done wave gone ps s.1)
]

no-deps :
    (set done : List String) (d : String)
    → length set ≡ 0
    → (contains done d || contains set d) ≡ true
    → contains done d ≡ true
no-deps [] done d e h = ground arith
no-deps (x ∷ set) done d e h = absurd (omega arith)

ready-done :
    (tasks : List Task) (done : List String) (ps : List Pending) (id d : String)
    → All (Sound tasks done) ps
    → contains (ready ps) id ≡ true
    → depends id d tasks ≡ true
    → contains done d ≡ true
unfolding ready
ready-done tasks done [] id d s r h = cc
ready-done tasks done (p ∷ ps) id d s r h = elim (Bool-cases (eqb p.in_degree 0)) [
  | inr later ↦ ready-done tasks done ps id d s.1 (rw later at r) h
  | inl now ↦ elim (String-cases p.id id) [
    | inl same ↦
        no-deps p.deps done d (ground (arith, s.0.counted))
          (s.0.covered d (ap (λ i. depends i d tasks) same ∙ h))
    | inr other ↦ ready-done tasks done ps id d s.1 (ground (arith, eq_iff p.id id, rw now at r)) h
  ]
]

-- A proposal that puts a wave first is that wave and the later ones.
pub put_first-waves :
    (wave : List String) (q : Proposal) (ws : List (List String))
    → put_first wave q ≡ waves ws
    → (later : List (List String)) × (q ≡ waves later) × (wave ∷ later ≡ ws)
unfolding put_first
put_first-waves wave (waves later) ws e = (later, refl, cc)
put_first-waves wave (unknown_dependency t d) ws e = cc
put_first-waves wave (cycle ids) ws e = cc
put_first-waves wave out_of_fuel ws e = cc

waves-injective : (a b : List (List String)) → waves a ≡ waves b → a ≡ b
waves-injective a b e = cc

pub layer-IsLayered :
    (tasks : List Task) (fuel : ℕ) (ps : List Pending) (done : List String)
    (ws : List (List String))
    → All (Sound tasks done) ps
    → layer fuel ps ≡ waves ws
    → IsLayered tasks done ws
unfolding layer
layer-IsLayered tasks zero [] done ws s e =
    subst (IsLayered tasks done) (waves-injective [] ws e) tt
layer-IsLayered tasks (suc fuel) [] done ws s e =
    subst (IsLayered tasks done) (waves-injective [] ws e) tt
layer-IsLayered tasks zero (p ∷ ps) done ws s e = cc
layer-IsLayered tasks (suc fuel) (p ∷ ps) done ws s e =
    elim (Bool-cases (is_empty (ready (p ∷ ps)))) [
      | inl stuck ↦ cc (rw stuck at e)
      | inr some_ ↦
          let wave = sort_strings (ready (p ∷ ps)) in
          let next = settle_all wave (remove_placed wave (p ∷ ps)) in
          let (later, found, same) = put_first-waves wave (layer fuel next) ws (rw some_ at e) in
          subst (IsLayered tasks done) same (
            (λ id d r h.
                ready-done tasks done (p ∷ ps) id d s
                  (sym (contains-sort_strings (ready (p ∷ ps)) id) ∙ r) h),
            layer-IsLayered tasks fuel next (wave ++ done) later
                (settle_all-Sound tasks done wave wave (p ∷ ps) s) found,
          )
    ]
