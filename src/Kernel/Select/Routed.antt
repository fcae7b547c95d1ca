-- ===== src/Kernel/Select/Routed.antt =====
-- Where a chosen executor comes from.
use the_foundry.Prelude.{
  ◌≡◌, ◌≢◌, ◌⊎◌, inl, inr, refl, ap, ◌∙◌, Bool, true, false, not, ◌&&◌, String, some, List, [], ◌∷◌,
  ◌++◌, All, ◌==◌, eq_iff, arith, any, contains, is_empty, lookup, Bool-cases, Option-cases,
}
use the_foundry.Plan.{Task}
use the_foundry.Capability.{Registry, eligible}
use the_foundry.Kernel.Select.{Selector, chosen, route, route_prefs, route_classed, select}
use the_foundry.Kernel.Select.Chosen.{
  validate_lem, serves, eligible_lem, route_classed_lem, select-cases,
}

route_first :
    (q : String → Bool) (prefs allow : List String) (reg : Registry) (n : String)
    → ((m : String) → any (λ rec. rec.provider == m) reg ≡ q m)
    → route prefs allow reg ≡ chosen n
    → (before after : List String) × (prefs ≡ before ++ n ∷ after)
      × All (λ m. (contains allow m && q m) ≡ false) before
unfolding route
route_first q [] allow reg n same e = cc
route_first q (name ∷ prefs) allow reg n same e =
    elim (Bool-cases (contains allow name && q name)) [
      | inl fits ↦
          let allowed : contains allow name ≡ true = ground (arith, fits) in
          let there : any (λ rec. rec.provider == name) reg ≡ true =
            same name ∙ ground (arith, fits) in
          let is : name ≡ n = cc (rw (allowed, there) at e) in
          ([], prefs, ap {B = List String} (λ x. x ∷ prefs) is, tt)
      | inr unfit ↦
          let (before, after, split, none_before) =
            route_first q prefs allow reg n same (later unfit) in
          (name ∷ before, after, ap {B = List String} (λ xs. name ∷ xs) split, (unfit, none_before))
    ]
  where
    later : (contains allow name && q name) ≡ false → route prefs allow reg ≡ chosen n
    later unfit = elim (Bool-cases (contains allow name)) [
      | inr refused ↦ rw refused at e
      | inl allowed ↦
          let missing : any (λ rec. rec.provider == name) reg ≡ false =
            same name ∙ ground (arith, unfit, allowed) in
          rw (allowed, missing) at e
    ]

-- A choice n of a class is the first of the class's preferences that the policy allows and that has a
-- record which may serve the selector's profile.
pub record IsRouted (s : Selector) (class : String) (allow : List String) (reg : Registry)
    (n : String) : Type 0 where
  pub before : List String
  pub after : List String
  pub preferred : lookup class s.routing ≡ some (before ++ n ∷ after)
  pub fits : (contains allow n && any (serves s.profile n) reg) ≡ true
  pub none_before : All (λ m. (contains allow m && any (serves s.profile m) reg) ≡ false) before

route_classed-IsRouted :
    (s : Selector) (class : String) (allow : List String) (reg : Registry) (n : String)
    → route_classed s class allow reg ≡ chosen n
    → IsRouted s class allow reg n
unfolding route_classed route_prefs
route_classed-IsRouted s class allow reg n e = elim (Option-cases (lookup class s.routing)) [
  | inl unrouted ↦ cc (rw unrouted at e)
  | inr (prefs, found) ↦ elim (Bool-cases (is_empty prefs)) [
    | inl empty ↦ cc (rw (found, empty) at e)
    | inr some_ ↦
        let (before, after, split, none_before) =
          route_first (λ m. any (serves s.profile m) reg) prefs allow (eligible s.profile [] reg) n
            (λ m. eligible_lem s.profile m reg) (rw (found, some_) at e) in
        let (allowed, there) = route_classed_lem s class allow reg n e in
        record {
          before = before;
          after = after;
          preferred = found ∙ ap some split;
          fits = rw (allowed, there) refl;
          none_before = none_before;
        }
  ]
]

unrouted :
    (s : Selector) (task : Task)
    → (not (is_empty s.routing) && not (task.class == "")) ≡ false
    → (s.routing ≡ []) ⊎ (task.class ≡ "")
unrouted s task e = elim (Bool-cases (task.class == "")) [
  | inl no_class ↦ inr ((eq_iff task.class "").0 no_class)
  | inr classed ↦ inl (empty s.routing (rw classed at e))
]
  where
    empty :
        (routing : List (String × List String))
        → (not (is_empty routing) && true) ≡ false
        → routing ≡ []
    empty [] e = refl
    empty (x ∷ xs) e = cc

-- A choice is what the task names; or the task names nothing and has a class, and the choice is the first
-- of the class's preferences that is allowed and may serve the selector's profile; or the task names
-- nothing and has no class or there is no routing, and the choice is the default.
pub select_source :
    (s : Selector) (task : Task) (allow : List String) (reg : Registry) (n : String)
    → select s task allow reg ≡ chosen n
    → ((task.executor ≢ "") × (n ≡ task.executor))
      ⊎ ((task.executor ≡ "") × (task.class ≢ "") × IsRouted s task.class allow reg n)
      ⊎ ((task.executor ≡ "") × ((s.routing ≡ []) ⊎ (task.class ≡ "")) × (n ≡ s.default))
select_source s task allow reg n e = elim (select-cases s task allow reg n e) [
  | inl (named, v) ↦
      inl (ground (arith, eq_iff task.executor ""), (validate_lem task.executor n allow reg v).0)
  | inr (inl (unnamed, classed, r)) ↦ inr (
      inl (
        (eq_iff task.executor "").0 unnamed,
        ground (arith, eq_iff task.class ""),
        route_classed-IsRouted s task.class allow reg n r,
      ))
  | inr (inr (unnamed, unclassed, v)) ↦ inr (
      inr (
        (eq_iff task.executor "").0 unnamed,
        unrouted s task unclassed,
        (validate_lem s.default n allow reg v).0,
      ))
]
