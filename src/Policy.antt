-- ===== src/Policy.antt =====
-- internal/policy/compiler/model.go, compiler.go, org.go: the data of the policy compiler. A mode is a
-- text in the source; here the three modes are constructors. A ceiling is a finite number of dollars that
-- is not negative, as a count of some small unit. A field that a layer may leave nil is an `Option`,
-- a map that it may leave nil or empty is a list. The messages and the printed values of errors
-- and overrides are kept as the values that they print.
pub mod Results
pub mod Merge
pub mod Compile
pub mod Org
pub mod Stricter
pub mod Merged
pub mod OneField
pub mod Tightened
pub mod Compiled
pub mod Merging
pub mod Overlay
use the_foundry.Prelude.{ℕ, Bool, true, false, not, ◌&&◌, ◌==◌, String, Option, List, if◌then◌else◌}

pub data Layer : Type 0 where
  platform org profile workflow : Layer

pub data Mode : Type 0 where
  auto command disabled : Mode
  unknown : String → Mode

-- A missing key of the map reads as 0.
unfoldable pub mode_rank : Mode → ℕ
mode_rank auto = 0
mode_rank command = 1
mode_rank disabled = 2
mode_rank (unknown s) = 0

unfoldable pub valid : Mode → Bool
valid auto = true
valid command = true
valid disabled = true
valid (unknown s) = false

unfoldable pub same_mode : Mode → Mode → Bool
same_mode auto auto = true
same_mode command command = true
same_mode disabled disabled = true
same_mode (unknown s) (unknown t) = s == t
same_mode m n = false

pub record RiskTierControl : Type 0 where
  pub auto_allowed : Bool
  pub require_review : Bool

unfoldable pub stricter_or_equal : RiskTierControl → RiskTierControl → Bool
stricter_or_equal prev next =
    if next.auto_allowed && not prev.auto_allowed
    then false
    else if not next.require_review && prev.require_review
    then false
    else true

pub record Policy : Type 0 where
  pub permissions_allowlist : List String
  pub deployment_modes : List (String × Mode)
  pub budget_ceilings_usd : List (String × ℕ)
  pub executor_allowlist : List String
  pub validation_allowlist_ref : String
  pub notification_classes : List String
  pub risk_tier_controls : List (String × RiskTierControl)
  pub require_sandbox : Bool

pub record LayerPolicy : Type 0 where
  pub permissions_allowlist : Option (List String)
  pub deployment_modes : List (String × Mode)
  pub budget_ceilings_usd : List (String × ℕ)
  pub executor_allowlist : Option (List String)
  pub validation_allowlist_ref : Option String
  pub notification_classes : Option (List String)
  pub risk_tier_controls : List (String × RiskTierControl)
  pub require_sandbox : Option Bool

pub data Field : Type 0 where
  permissions executors notifications modes budgets risk_tiers validation_ref sandbox : Field
  push_authorization scm_provider : Field

pub data Problem : Type 0 where
  must_be_set weakened_sandbox changed_fixed unknown_value : Problem
  widened : List String → Problem
  invalid_mode undefined_key weakened_key : String → Problem

pub record CompileError : Type 0 where
  pub layer : Layer
  pub field : Field
  pub problem : Problem

pub data Direction : Type 0 where
  tightened changed : Direction

pub data Shown : Type 0 where
  names : List String → Shown
  mode_at : String → Mode → Shown
  ceiling_at : String → ℕ → Shown
  control_at : String → RiskTierControl → Shown
  flag : Bool → Shown

pub record Override : Type 0 where
  pub field : Field
  pub from_layer : Layer
  pub old : Shown
  pub new : Shown
  pub direction : Direction

-- The policy that Compile works on and the overrides recorded so far.
pub record Draft : Type 0 where
  pub effective : Policy
  pub overrides : List Override
