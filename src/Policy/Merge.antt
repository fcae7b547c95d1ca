-- ===== src/Policy/Merge.antt =====
-- internal/policy/compiler/compiler.go: the merge functions. The three that merge a map have one loop,
-- over the sorted keys of the layer's map: only the map of modes tests its new values. Each takes and
-- returns the overrides recorded so far.
use the_foundry.Prelude.{
  ℕ, Bool, true, false, not, ◌&&◌, ◌==◌, String, Option, none, some, List, [], ◌∷◌, ◌++◌, map, ltb,
  eqb, is_empty, contains, lookup, insert, sort_strings, if◌then◌else◌,
}
use the_foundry.Policy.{
  Layer, Mode, mode_rank, valid, same_mode, RiskTierControl, stricter_or_equal, Field, modes,
  budgets, risk_tiers, validation_ref, sandbox, Problem, weakened_sandbox, changed_fixed, widened,
  invalid_mode, undefined_key, weakened_key, CompileError, tightened, Shown, names, mode_at,
  ceiling_at, control_at, flag, Override,
}
use the_foundry.Policy.Results.{Result, ok, failed, ◌>>=◌, Updated}

abbrev pub failure : Layer → Field → Problem → CompileError
failure layer field problem = record { layer = layer; field = field; problem = problem }

abbrev pub override : Layer → Field → Shown → Shown → Override
override layer field old new = record {
  field = field;
  from_layer = layer;
  old = old;
  new = new;
  direction = tightened;
}

abbrev pub same_bool : Bool → Bool → Bool
same_bool true b = b
same_bool false b = not b

-- The elements that the inherited set lacks, in order.
unfoldable pub added_to : List String → List String → List String
added_to prev [] = []
added_to prev (v ∷ vs) = let rest = added_to prev vs in if contains prev v then rest else v ∷ rest

unfoldable pub equal_strings : List String → List String → Bool
equal_strings [] [] = true
equal_strings (a ∷ as') (b ∷ bs) = a == b && equal_strings as' bs
equal_strings xs ys = false

unfoldable pub merge_string_set :
    Field → Layer → List String → List String → List Override → Updated (List String)
merge_string_set field layer prev next overrides =
    let next_sorted = sort_strings next in
    let added = added_to prev next_sorted in
    if not (is_empty added)
    then failed (failure layer field (widened added))
    else if equal_strings prev next_sorted
    then ok (prev, overrides)
    else ok (next_sorted, overrides ++ override layer field (names prev) (names next_sorted) ∷ [])

-- What differs between the three maps: the test of a new value, with its problem, whether the new
-- value may replace the old one, equality, and the printing of an entry.
pub record Rules (V : Type 0) : Type 0 where
  pub field : Field
  pub is_valid : V → Bool
  pub allowed : V → V → Bool
  pub same : V → V → Bool
  pub show : String → V → Shown

module _ {V : Type 0} (rules : Rules V) (layer : Layer) where
  -- One round of the loop, on the new value and the old one.
  unfoldable pub merge_value :
      String → V → Option V → List (String × V) → List Override → Updated (List (String × V))
  merge_value key new old prev overrides =
      if not (rules.is_valid new)
      then failed (failure layer rules.field (invalid_mode key))
      else elim old [
        | none ↦ failed (failure layer rules.field (undefined_key key))
        | some old ↦
            if not (rules.allowed old new)
            then failed (failure layer rules.field (weakened_key key))
            else if rules.same new old
            then ok (prev, overrides)
            else ok (
              insert key new prev,
              overrides
                  ++ override layer rules.field (rules.show key old) (rules.show key new) ∷ [],
            )
      ]

  unfoldable pub merge_key :
      String → Option V → List (String × V) → List Override → Updated (List (String × V))
  merge_key key none prev overrides = ok (prev, overrides)
  merge_key key (some new) prev overrides = merge_value key new (lookup key prev) prev overrides

  unfoldable pub merge_keys :
      List (String × V)
      → List String
      → List (String × V)
      → List Override
      → Updated (List (String × V))
  merge_keys next [] prev overrides = ok (prev, overrides)
  merge_keys next (key ∷ keys) prev overrides =
      merge_key key (lookup key next) prev overrides >>= λ m. merge_keys next keys m.0 m.1

unfoldable pub sorted_map_keys {ℓ} : {V : Type ℓ} → List (String × V) → List String
sorted_map_keys entries = sort_strings (map (λ e. e.0) entries)

unfoldable pub mode_rules : Rules Mode
mode_rules = record {
  field = modes;
  is_valid = valid;
  allowed = λ old new. not (ltb (mode_rank new) (mode_rank old));
  same = same_mode;
  show = mode_at;
}

unfoldable pub budget_rules : Rules ℕ
budget_rules = record {
  field = budgets;
  is_valid = λ v. true;
  allowed = λ old new. not (ltb old new);
  same = eqb;
  show = ceiling_at;
}

unfoldable pub same_control : RiskTierControl → RiskTierControl → Bool
same_control a b =
    same_bool a.auto_allowed b.auto_allowed && same_bool a.require_review b.require_review

unfoldable pub risk_rules : Rules RiskTierControl
risk_rules = record {
  field = risk_tiers;
  is_valid = λ v. true;
  allowed = stricter_or_equal;
  same = same_control;
  show = control_at;
}

unfoldable pub merge_map :
    {V : Type 0}
    → Rules V
    → Layer
    → List (String × V)
    → List (String × V)
    → List Override
    → Updated (List (String × V))
unfolding merge_keys
merge_map rules layer prev next overrides =
    merge_keys rules layer next (sorted_map_keys next) prev overrides

unfoldable pub merge_fixed_string : Layer → String → String → List Override → Result (List Override)
merge_fixed_string layer prev next overrides =
    if next == prev then ok overrides else failed (failure layer validation_ref changed_fixed)

unfoldable pub merge_require_sandbox : Layer → Bool → Bool → List Override → Updated Bool
merge_require_sandbox layer prev next overrides =
    if same_bool next prev
    then ok (prev, overrides)
    else if prev && not next
    then failed (failure layer sandbox weakened_sandbox)
    else ok (next, overrides ++ override layer sandbox (flag prev) (flag next) ∷ [])
