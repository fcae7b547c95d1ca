-- ===== src/Kernel/Select/Chosen.antt =====
-- What a chosen executor has passed.
use the_foundry.Prelude.{
  ◌≡◌, ◌⊎◌, inl, inr, refl, sym, ap, ◌∙◌, Bool, true, false, not, ◌&&◌, String, Option, none, some,
  List, [], ◌∷◌, ◌==◌, arith, any, any-sort_by, contains, is_empty, lookup, str_ltb, Bool-cases,
  Option-cases,
}
use the_foundry.Plan.{Task}
use the_foundry.Capability.{
  Capability, availability_supported, Registry, is_eligible, select_eligible, eligible,
  find_provider,
}
use the_foundry.Kernel.Select.{
  Selector, chosen, check_record, validate, route, route_prefs, route_classed, select,
}

-- A record of the registry with this name and a working adapter.
abbrev pub is_supported : String → Capability → Bool
is_supported name rec = rec.provider == name && rec.availability == availability_supported

pub find_provider-supported :
    (name : String) (reg : Registry) (rec : Capability)
    → find_provider name reg ≡ some rec
    → (rec.availability == availability_supported) ≡ true
    → any (is_supported name) reg ≡ true
unfolding find_provider
find_provider-supported name [] rec found ok = cc
find_provider-supported name (r ∷ reg) rec found ok = elim (Bool-cases (r.provider == name)) [
  | inl here ↦
      let same : r ≡ rec = cc (rw here at found) in
      let okay : (r.availability == availability_supported) ≡ true =
        ap (λ x. x.availability == availability_supported) same ∙ ok in
      ground (arith, here, okay)
  | inr there ↦ rw there (find_provider-supported name reg rec (rw there at found) ok)
]

check_record_lem :
    (name n : String) (o : Option Capability)
    → check_record name o ≡ chosen n
    → (n ≡ name)
      × ((rec : Capability) × (o ≡ some rec)
          × ((rec.availability == availability_supported) ≡ true))
unfolding check_record
check_record_lem name n none e = cc
check_record_lem name n (some rec) e =
    elim (Bool-cases (rec.availability == availability_supported)) [
      | inl ok ↦ (cc (rw ok at e), (rec, refl, ok))
      | inr bad ↦ cc (rw bad at e)
    ]

pub validate_lem :
    (name n : String) (allow : List String) (reg : Registry)
    → validate name allow reg ≡ chosen n
    → (n ≡ name) × (contains allow n ≡ true) × (any (is_supported n) reg ≡ true)
unfolding validate
validate_lem name n allow reg e = elim (Bool-cases (contains allow name)) [
  | inl allowed ↦
      let (same, (rec, found, ok)) =
        check_record_lem name n (find_provider name reg) (rw allowed at e) in
      (
        same,
        ap (contains allow) same ∙ allowed,
        ap (λ x. any (is_supported x) reg) same ∙ find_provider-supported name reg rec found ok,
      )
  | inr refused ↦ cc (rw refused at e)
]

route_lem :
    (prefs allow : List String) (reg : Registry) (n : String)
    → route prefs allow reg ≡ chosen n
    → (contains allow n ≡ true) × (any (λ rec. rec.provider == n) reg ≡ true)
unfolding route
route_lem [] allow reg n e = cc
route_lem (name ∷ prefs) allow reg n e = elim (Bool-cases (contains allow name)) [
  | inl allowed ↦ elim (Bool-cases (any (λ rec. rec.provider == name) reg)) [
    | inl there ↦
        let same : name ≡ n = cc (rw (allowed, there) at e) in
        (
          ap (contains allow) (sym same) ∙ allowed,
          ap (λ x. any (λ rec. rec.provider == x) reg) (sym same) ∙ there,
        )
    | inr missing ↦ route_lem prefs allow reg n (rw (allowed, missing) at e)
  ]
  | inr refused ↦ route_lem prefs allow reg n (rw refused at e)
]

-- A record of this name that may serve the profile.
abbrev pub serves : String → String → Capability → Bool
serves profile name rec = rec.provider == name && is_eligible profile [] rec

select_eligible_lem :
    (profile name : String) (reg : Registry)
    → any (λ rec. rec.provider == name) (select_eligible profile [] reg)
      ≡ any (serves profile name) reg
unfolding select_eligible
select_eligible_lem profile name [] = refl
select_eligible_lem profile name (rec ∷ reg) = elim (Bool-cases (is_eligible profile [] rec)) [
  | inl fits ↦ rw (fits, select_eligible_lem profile name reg) (ground arith)
  | inr unfit ↦ rw (unfit, select_eligible_lem profile name reg) (ground arith)
]

pub eligible_lem :
    (profile name : String) (reg : Registry)
    → any (λ rec. rec.provider == name) (eligible profile [] reg) ≡ any (serves profile name) reg
unfolding eligible
eligible_lem profile name reg =
    any-sort_by (λ a b. str_ltb a.provider b.provider) (λ rec. rec.provider == name)
      (select_eligible profile [] reg)
    ∙ select_eligible_lem profile name reg

serves-supported :
    (profile name : String) (reg : Registry)
    → any (serves profile name) reg ≡ true
    → any (is_supported name) reg ≡ true
unfolding is_eligible
serves-supported profile name [] e = e
serves-supported profile name (rec ∷ reg) e = ground (arith, serves-supported profile name reg)

pub route_classed_lem :
    (s : Selector) (class : String) (allow : List String) (reg : Registry) (n : String)
    → route_classed s class allow reg ≡ chosen n
    → (contains allow n ≡ true) × (any (serves s.profile n) reg ≡ true)
unfolding route_classed route_prefs
route_classed_lem s class allow reg n e = elim (Option-cases (lookup class s.routing)) [
  | inl unrouted ↦ cc (rw unrouted at e)
  | inr (prefs, found) ↦ elim (Bool-cases (is_empty prefs)) [
    | inl empty ↦ cc (rw (found, empty) at e)
    | inr some_ ↦
        let (allowed, there) =
          route_lem prefs allow (eligible s.profile [] reg) n (rw (found, some_) at e) in
        (allowed, sym (eligible_lem s.profile n reg) ∙ there)
  ]
]

-- The three ways to a choice.
pub select-cases :
    (s : Selector) (task : Task) (allow : List String) (reg : Registry) (n : String)
    → select s task allow reg ≡ chosen n
    → (((task.executor == "") ≡ false) × (validate task.executor allow reg ≡ chosen n))
      ⊎ (((task.executor == "") ≡ true)
          × ((not (is_empty s.routing) && not (task.class == "")) ≡ true)
          × (route_classed s task.class allow reg ≡ chosen n))
      ⊎ (((task.executor == "") ≡ true)
          × ((not (is_empty s.routing) && not (task.class == "")) ≡ false)
          × (validate s.default allow reg ≡ chosen n))
unfolding select
select-cases s task allow reg n e = elim (Bool-cases (task.executor == "")) [
  | inr named ↦ inl (named, rw named at e)
  | inl unnamed ↦ inr (elim (Bool-cases (not (is_empty s.routing) && not (task.class == ""))) [
    | inl classed ↦ inl (unnamed, classed, rw (unnamed, classed) at e)
    | inr unclassed ↦ inr (
      unnamed,
      unclassed,
      elim (Bool-cases (s.default == "")) [
        | inl missing ↦ cc (rw (unnamed, unclassed, missing) at e)
        | inr default ↦ rw (unnamed, unclassed, default) at e
      ],
    )
  ])
]

-- An executor is only ever chosen if the policy allows it and the registry has a supported record of
-- it, whether the task names it, a class routes to it or it is the default.
pub select_allowed :
    (s : Selector) (task : Task) (allow : List String) (reg : Registry) (n : String)
    → select s task allow reg ≡ chosen n
    → (contains allow n ≡ true) × (any (is_supported n) reg ≡ true)
select_allowed s task allow reg n e = elim (select-cases s task allow reg n e) [
  | inl (named, v) ↦
      let (same, allowed, there) = validate_lem task.executor n allow reg v in (allowed, there)
  | inr (inl (unnamed, classed, r)) ↦
      let (allowed, there) = route_classed_lem s task.class allow reg n r in
      (allowed, serves-supported s.profile n reg there)
  | inr (inr (unnamed, unclassed, v)) ↦
      let (same, allowed, there) = validate_lem s.default n allow reg v in (allowed, there)
]
