-- ===== src/Admission.antt =====
-- internal/admission: tiers, the ruleset and the classifier (tier.go, rules_v1.go, rules_v1_1.go,
-- decision.go, classifier.go). Parameters: `strings.ToLower`, the effects that internal/admission/detect
-- finds, and the policy view, an interface of the source. The risk score is in tenths.
pub mod Detect
pub mod Floors
pub mod Discrepancy
pub mod Gate
use Prim.Native.String.{◌++◌ as append}
use the_foundry.Admission.Detect.{has_part}
use the_foundry.Prelude.{
  ℕ, Bool, true, false, not, ◌&&◌, ◌||◌, String, Option, none, some, List, [], ◌∷◌, ◌++◌, ◌==◌, ltb,
  any, contains, str_ltb, sort_by, sort_strings, is_empty, if◌then◌else◌,
}
use the_foundry.Plan.{EffectKind, Effect, Document}

pub data Tier : Type 0 where
  a0 a1 a2 h : Tier

-- The source's int value: a larger one is more restrictive.
unfoldable pub rank : Tier → ℕ
rank a0 = 0
rank a1 = 1
rank a2 = 2
rank h = 3

unfoldable pub to_string : Tier → String
to_string a0 = "A0"
to_string a1 = "A1"
to_string a2 = "A2"
to_string h = "H"

-- `none` is the source's error on an unknown label.
unfoldable pub of_string : String → Option Tier
of_string s =
    if s == "A0"
    then some a0
    else if s == "A1"
    then some a1
    else if s == "A2"
    then some a2
    else if s == "H"
    then some h
    else none

pub record Rule : Type 0 where
  pub id : String
  pub tier_floor : Tier
  pub fits : Effect → Bool

abbrev pub kind_in : List EffectKind → Effect → Bool
kind_in kinds e = contains kinds e.kind

pub record PolicyView : Type 0 where
  pub digest : String
  pub required_controls : Tier → List String

pub record Decision : Type 0 where
  pub classifier_version : String
  pub policy_digest : String
  pub rules_evaluated : List String
  pub declared : List Effect
  pub detected : List Effect
  pub discrepancies : List Effect
  pub risk_score : ℕ
  pub tier : Tier
  pub required_controls : List String
  pub explanation : String

abbrev pub version : String
version = "admission/v1.1"

pub data Error : Type 0 where
  nil_document nil_policy self_classification : Error

unfoldable pub risk_score_for : Tier → ℕ
risk_score_for a0 = 0
risk_score_for a1 = 3
risk_score_for a2 = 6
risk_score_for h = 10

-- string(e.Kind) + "|" + e.Target
unfoldable pub effect_key : Effect → String
effect_key e = append e.kind (append "|" e.target)

-- The order of sort.SliceStable: by kind, then by target.
unfoldable pub effect_less : Effect → Effect → Bool
effect_less a b = if a.kind == b.kind then str_ltb a.target b.target else str_ltb a.kind b.kind

abbrev pub has_key : Effect → Effect → Bool
has_key e f = effect_key f == effect_key e

-- The detected effects whose key is not declared, in the order in which they were detected.
unfoldable pub undeclared : List Effect → List Effect → List Effect
undeclared declared [] = []
undeclared declared (e ∷ detected) =
    let rest = undeclared declared detected in if any (has_key e) declared then rest else e ∷ rest

unfoldable pub discrepancy_effects : List Effect → List Effect → List Effect
unfolding undeclared
discrepancy_effects declared detected = sort_by effect_less (undeclared declared detected)

unfoldable pub is_grave : Effect → Bool
is_grave e = e.kind == "billing" || e.kind == "secret" || e.kind == "destructive"

unfoldable pub raise_tier : Tier → Tier
raise_tier a0 = a1
raise_tier a1 = a2
raise_tier a2 = h
raise_tier h = h

unfoldable pub apply_discrepancy_floor : Tier → List Effect → Tier
unfolding is_grave raise_tier
apply_discrepancy_floor base discrepancies =
    if is_empty discrepancies
    then base
    else if any is_grave discrepancies
    then h
    else raise_tier base

-- The loop over the rules: a rule that fits some effect raises the tier to its floor.
unfoldable pub base_tier : List Rule → List Effect → Tier → Tier
unfolding rank
base_tier [] effects tier = tier
base_tier (rule ∷ rules) effects tier = base_tier rules effects (
    if any rule.fits effects && ltb (rank tier) (rank rule.tier_floor)
    then rule.tier_floor
    else tier)

-- The keys of the map of fired rules.
unfoldable pub fired : List Rule → List Effect → List String
fired [] effects = []
fired (rule ∷ rules) effects =
    let rest = fired rules effects in
    if any rule.fits effects && not (contains rest rule.id) then rule.id ∷ rest else rest

unfoldable pub join : String → List String → String
join sep [] = ""
join sep (s ∷ []) = s
join sep (s ∷ t ∷ rest) = append s (append sep (join sep (t ∷ rest)))

unfoldable pub explanation_for : Tier → List String → String
unfolding to_string join
explanation_for tier rules =
    if is_empty rules
    then append "tier " (append (to_string tier) ": no rules fired, default floor applies")
    else append "tier " (
        append (to_string tier)
          (append ": highest floor among fired rules [" (append (join ", " rules) "]")))

-- An error leaves the zero decision, but for the self-classification gate.
pub data Verdict : Type 0 where
  admitted : Decision → Verdict
  refused : Error → Option Decision → Verdict

abbrev pub rejected : Decision
rejected = record {
  classifier_version = "";
  policy_digest = "";
  rules_evaluated = [];
  declared = [];
  detected = [];
  discrepancies = [];
  risk_score = 0;
  tier = h;
  required_controls = [];
  explanation = "plan-authored tier ignored";
}

module _ (to_lower : String → String) where
  unfoldable pub is_production_target : String → Bool
  is_production_target target =
      has_part (to_lower target) "production" || has_part (to_lower target) "prod"

  abbrev pub rules_v1 : List Rule
  rules_v1 =
      record { id = "docs-copy-tests"; tier_floor = a0; fits = kind_in ("docs" ∷ "code" ∷ []) }
      ∷ record {
        id = "dependency-migration-network-secret-deploy";
        tier_floor = a1;
        fits = kind_in ("dependency" ∷ "migration" ∷ "network" ∷ "secret" ∷ "deploy" ∷ []);
      }
      ∷ record {
        id = "billing-permission-destructive";
        tier_floor = h;
        fits = kind_in ("billing" ∷ "permission" ∷ "destructive" ∷ []);
      }
      ∷ record {
        id = "production-deploy";
        tier_floor = a2;
        fits = λ e. e.kind == "deploy" && is_production_target e.target;
      }
      ∷ []

  module _ (from_document : Document → List Effect) where
    unfoldable pub decide : PolicyView → Document → Decision
    decide policy doc =
        let detected = from_document doc in
        let union = doc.declared_effects ++ detected in
        let discrepancies = discrepancy_effects doc.declared_effects detected in
        let rules = sort_strings (fired rules_v1 union) in
        let tier = apply_discrepancy_floor (base_tier rules_v1 union a0) discrepancies in
        record {
          classifier_version = version;
          policy_digest = policy.digest;
          rules_evaluated = rules;
          declared = doc.declared_effects;
          detected = detected;
          discrepancies = discrepancies;
          risk_score = risk_score_for tier;
          tier = tier;
          required_controls = sort_strings (policy.required_controls tier);
          explanation = explanation_for tier rules;
        }

    unfoldable pub classify : Option Document → Option PolicyView → Verdict
    classify none policy = refused nil_document none
    classify (some doc) none = refused nil_policy none
    classify (some doc) (some policy) =
        if doc.self_classified
        then refused self_classification (some rejected)
        else admitted (decide policy doc)
