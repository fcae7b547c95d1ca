-- ===== src/Admission/Gate.antt =====
-- Classify of internal/admission/classifier.go as a whole: its gates, and what the detector of
-- internal/admission/detect makes of a plan with irreversible files or commands.
use the_foundry.Prelude.{
  or_true, ◌≡◌, ◌↔◌, sym, ap, if◌then◌else◌, refl, ◌∙◌, Bool, true, false, String, Option, none,
  some, List, any, any-append,
}
use mathlib.Core.Option.{some-injective}
use the_foundry.Plan.{Document, Effect}
use the_foundry.Admission.{
  h, self_classification, PolicyView, Decision, admitted, refused, rejected, decide, classify,
}
use the_foundry.Admission.Detect.{from_document}
use the_foundry.Admission.Detect.Irreversible.{irreversible, task_flagged, detected_irreversible}
use the_foundry.Admission.Discrepancy.{irreversible_needs_human}

gate :
    (b : Bool) (v d : Decision)
    → (if b then refused self_classification (some rejected) else admitted v) ≡ admitted d
    → (b ≡ false) × (d ≡ v)
gate true v d e = cc
gate false v d e = (refl, cc)

ungate :
    (b : Bool) (v d : Decision)
    → b ≡ false
    → d ≡ v
    → (if b then refused self_classification (some rejected) else admitted v) ≡ admitted d
ungate true v d b e = cc
ungate false v d b e = ap admitted (sym e)

-- A decision is made exactly when there is a document and a policy view, and the plan does not
-- declare its own tier; the decision is then the ruleset's.
pub classify_admitted :
    (to_lower : String → String) (detect : Document → List Effect) (doc : Option Document)
    (policy : Option PolicyView) (d : Decision)
    → (classify to_lower detect doc policy ≡ admitted d) ↔ (
        (plan : Document) × (view : PolicyView) × (doc ≡ some plan)
        × (policy ≡ some view)
        × (plan.self_classified ≡ false)
        × (d ≡ decide to_lower detect view plan))
unfolding classify
classify_admitted to_lower detect none policy d = (λ e. cc, λ x. cc x.2)
classify_admitted to_lower detect (some plan) none d = (λ e. cc, λ x. cc x.3)
classify_admitted to_lower detect (some plan) (some view) d = (
  λ e.
      let open_ = gate plan.self_classified (decide to_lower detect view plan) d e in
      (plan, view, refl, refl, open_.0, open_.1),
  λ x.
      let plans = some-injective plan x.0 x.2 in
      let views = some-injective view x.1 x.3 in
      ungate plan.self_classified (decide to_lower detect view plan) d
        (ap (λ p. p.self_classified) plans ∙ x.4)
        (x.5
          ∙ ap (λ p. decide to_lower detect x.1 p) (sym plans)
          ∙ ap (λ v. decide to_lower detect v plan) (sym views)),
)

-- A plan with a file or a command that the detector flags as destructive or billing, or with a file that
-- it flags as permission, is admitted at no tier but H, whatever it declares.
pub irreversible_plan_h :
    (to_lower : String → String) (hosts : String → List String) (plan : Document)
    (policy : Option PolicyView) (d : Decision)
    → any (task_flagged to_lower hosts) plan.tasks ≡ true
    → classify to_lower (from_document to_lower hosts) (some plan) policy ≡ admitted d
    → d.tier ≡ h
irreversible_plan_h to_lower hosts plan policy d flagged e =
    let lists = from_document to_lower hosts in
    let made = (classify_admitted to_lower lists (some plan) policy d).0 e in
    let same = some-injective plan made.0 made.2 in
    let found = any-append irreversible plan.declared_effects (lists plan) in
    ap (λ v. v.tier) made.5
    ∙ ap (λ p. (decide to_lower lists made.1 p).tier) (sym same)
    ∙ irreversible_needs_human to_lower lists made.1 plan
        (found ∙ or_true _ (detected_irreversible to_lower hosts plan flagged))
