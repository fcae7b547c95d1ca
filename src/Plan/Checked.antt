-- ===== src/Plan/Checked.antt =====
-- What `Document.validate` of internal/plan/schema.go accepts.
use the_foundry.Prelude.{
  ℕ, suc, ◌≡◌, ◌≢◌, ◌↔◌, ◌⊎◌, inl, inr, refl, true, false, String, Option, none, List, [], ◌∷◌,
  ◌==◌, eq_iff, arith, All, Bool-cases, is_empty, contains,
}
use the_foundry.Plan.{
  Effect, valid, Task, Document, Error, first_error, check_depends, check_references, check_effects,
  task_ids, check_validation, check_tasks, validate,
}

-- The ids are not empty, differ from `seen` and from one another.
abbrev pub AreFresh : List String → List Task → Type 0
AreFresh seen [] = Unit
AreFresh seen (t ∷ ts) = (t.id ≢ "") × (contains seen t.id ≡ false) × AreFresh (t.id ∷ seen) ts

-- Honest completion: validation commands, or an opt-out with a reason that is not blank.
abbrev pub IsValidated : (String → String) → Task → Type 0
IsValidated trim_space t =
    (is_empty t.validation_commands ≡ false)
    ⊎ ((t.validation_optout ≡ true) × (trim_space t.validation_optout_reason ≢ ""))

pub record IsWellFormed (trim_space : String → String) (d : Document) : Type 0 where
  pub has_id : d.id ≢ ""
  pub has_version : d.version ≢ ""
  pub has_tasks : is_empty d.tasks ≡ false
  pub fresh : AreFresh [] d.tasks
  pub validated : All (IsValidated trim_space) d.tasks
  pub known_references :
      All (λ t. All (λ dep. contains (task_ids d.tasks) dep ≡ true) t.depends_on) d.tasks
  pub known_effects : All (λ e. valid e.kind ≡ true) d.declared_effects

first_error-none : (e f : Option Error) → (first_error e f ≡ none) ↔ ((e ≡ none) × (f ≡ none))
unfolding first_error
first_error-none e f = ground arith

check_depends-none :
    (ids : List String) (task : String) (deps : List String)
    → (check_depends ids task deps ≡ none) ↔ All (λ dep. contains ids dep ≡ true) deps
unfolding check_depends
check_depends-none ids task [] = (λ e. tt, λ a. refl)
check_depends-none ids task (dep ∷ deps) = elim (Bool-cases (contains ids dep)) [
  | inl known ↦
      let ih = check_depends-none ids task deps in rw known (λ e. (refl, ih.0 e), λ a. ih.1 a.1)
  | inr unknown ↦ rw unknown (λ e. cc, λ a. cc a.0)
]

check_references-none :
    (ids : List String) (ts : List Task)
    → (check_references ids ts ≡ none)
      ↔ All (λ t. All (λ dep. contains ids dep ≡ true) t.depends_on) ts
unfolding check_references
check_references-none ids [] = (λ e. tt, λ a. refl)
check_references-none ids (t ∷ ts) =
    let split = first_error-none (check_depends ids t.id t.depends_on) (check_references ids ts) in
    let own = check_depends-none ids t.id t.depends_on in
    let later = check_references-none ids ts in
    (λ e. let h = split.0 e in (own.0 h.0, later.0 h.1), λ a. split.1 (own.1 a.0, later.1 a.1))

check_effects-none :
    (i : ℕ) (es : List Effect) → (check_effects i es ≡ none) ↔ All (λ e. valid e.kind ≡ true) es
unfolding check_effects
check_effects-none i [] = (λ e. tt, λ a. refl)
check_effects-none i (e ∷ es) = elim (Bool-cases (valid e.kind)) [
  | inl known ↦
      let ih = check_effects-none (suc i) es in rw known (λ h. (refl, ih.0 h), λ a. ih.1 a.1)
  | inr unknown ↦ rw unknown (λ h. cc, λ a. cc a.0)
]

module _ (trim_space : String → String) where
  check_validation-none :
      (t : Task) → (check_validation trim_space t ≡ none) ↔ IsValidated trim_space t
  unfolding check_validation
  check_validation-none t = grind (arith, eq_iff (trim_space t.validation_optout_reason) "")

  check_tasks-none :
      (ids : List String) (ts : List Task)
      → (check_tasks trim_space ids ts ≡ none) ↔ (AreFresh ids ts × All (IsValidated trim_space) ts)
  unfolding check_tasks
  check_tasks-none ids [] = (λ e. (tt, tt), λ a. refl)
  check_tasks-none ids (t ∷ ts) =
      let split =
        first_error-none (check_validation trim_space t) (check_tasks trim_space (t.id ∷ ids) ts) in
      let own = check_validation-none t in
      let later = check_tasks-none (t.id ∷ ids) ts in
      elim (Bool-cases (t.id == "")) [
        | inl blank ↦ rw blank (λ e. cc, λ a. absurd (a.0.0 ((eq_iff t.id "").0 blank)))
        | inr named ↦ elim (Bool-cases (contains ids t.id)) [
          | inl old ↦ rw (named, old) (λ e. cc, λ a. cc a.0.1)
          | inr new ↦
              rw (named, new)
                (
                  λ e.
                      let h = split.0 e in
                      let r = later.0 h.1 in
                      (((λ p. cc (named, (eq_iff t.id "").1 p)), refl, r.0), (own.0 h.0, r.1)),
                  λ a. split.1 (own.1 a.1.0, later.1 (a.0.2, a.1.1)),
                )
        ]
      ]

  -- A document is accepted exactly when it is well formed: it has an id, a version and a task; its
  -- task ids are not empty and all different; every task has a validation command or a reasoned
  -- opt-out; every dependency names one of its tasks; and every declared effect has a known kind.
  pub validate-IsWellFormed :
      (d : Document) → (validate trim_space d ≡ none) ↔ IsWellFormed trim_space d
  unfolding validate
  validate-IsWellFormed d = (accepted, sound)
    where
      tasks : Option Error
      tasks = check_tasks trim_space [] d.tasks

      references : Option Error
      references = check_references (task_ids d.tasks) d.tasks

      effects : Option Error
      effects = check_effects 0 d.declared_effects

      accepted : validate trim_space d ≡ none → IsWellFormed trim_space d
      accepted h =
          let loops : first_error tasks (first_error references effects) ≡ none = ground arith in
          let (t, rest) = (first_error-none tasks (first_error references effects)).0 loops in
          let (r, e) = (first_error-none references effects).0 rest in
          let (fresh, validated) = (check_tasks-none [] d.tasks).0 t in
          record {
            has_id = ground (arith, eq_iff d.id "");
            has_version = ground (arith, eq_iff d.version "");
            has_tasks = ground arith;
            fresh = fresh;
            validated = validated;
            known_references = (check_references-none (task_ids d.tasks) d.tasks).0 r;
            known_effects = (check_effects-none 0 d.declared_effects).0 e;
          }

      sound : IsWellFormed trim_space d → validate trim_space d ≡ none
      sound w =
          let t : tasks ≡ none = (check_tasks-none [] d.tasks).1 (w.fresh, w.validated) in
          let r : references ≡ none =
            (check_references-none (task_ids d.tasks) d.tasks).1 w.known_references in
          let e : effects ≡ none = (check_effects-none 0 d.declared_effects).1 w.known_effects in
          let loops : first_error tasks (first_error references effects) ≡ none =
            (first_error-none tasks (first_error references effects)).1
              (t, (first_error-none references effects).1 (r, e)) in
          ground (arith, eq_iff d.id "", eq_iff d.version "")
