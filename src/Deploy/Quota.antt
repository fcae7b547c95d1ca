-- ===== src/Deploy/Quota.antt =====
-- internal/deploy/quota.go: the quotas of a profile. A delta is not negative and no sum reaches 2 ^ 63.
-- The mutex makes each operation one step.
pub mod Within
use the_foundry.Prelude.{
  ℕ, ◌+◌, ◌-◌, Bool, true, false, ◌&&◌, String, Option, none, some, List, [], ◌∷◌, ltb, lookup,
  lookup_or, insert, if◌then◌else◌,
}

-- A maximum of 0 is no limit.
pub record ProfileQuota : Type 0 where
  pub max_workflows : ℕ
  pub max_runners : ℕ
  pub max_admissions : ℕ
  pub max_active_missions : ℕ

pub record Usage : Type 0 where
  pub workflows : ℕ
  pub runners : ℕ
  pub admissions : ℕ
  pub missions : ℕ

abbrev pub unused : Usage
unused = record { workflows = 0; runners = 0; admissions = 0; missions = 0 }

pub data QuotaError : Type 0 where
  unknown_profile exceeds_workflows exceeds_runners exceeds_admissions exceeds_missions : QuotaError

unfoldable pub plus : Usage → Usage → Usage
plus used delta = record {
  workflows = used.workflows + delta.workflows;
  runners = used.runners + delta.runners;
  admissions = used.admissions + delta.admissions;
  missions = used.missions + delta.missions;
}

-- The differences, with 0 in place of a negative one.
unfoldable pub minus : Usage → Usage → Usage
minus used delta = record {
  workflows = used.workflows - delta.workflows;
  runners = used.runners - delta.runners;
  admissions = used.admissions - delta.admissions;
  missions = used.missions - delta.missions;
}

-- max > 0 && used + delta > max
abbrev pub exceeds : ℕ → ℕ → Bool
exceeds sum max = ltb 0 max && ltb max sum

unfoldable pub check_quota : Option ProfileQuota → Usage → Usage → Option QuotaError
check_quota none used delta = some unknown_profile
check_quota (some quota) used delta =
    if exceeds (used.workflows + delta.workflows) quota.max_workflows
    then some exceeds_workflows
    else if exceeds (used.runners + delta.runners) quota.max_runners
    then some exceeds_runners
    else if exceeds (used.admissions + delta.admissions) quota.max_admissions
    then some exceeds_admissions
    else if exceeds (used.missions + delta.missions) quota.max_active_missions
    then some exceeds_missions
    else none

-- The state is the map of usage; a missing profile has used nothing.
module _ (quotas : List (String × ProfileQuota)) where
  unfoldable pub can_acquire : String → Usage → List (String × Usage) → Option QuotaError
  can_acquire profile delta usage =
      check_quota (lookup profile quotas) (lookup_or unused profile usage) delta

  unfoldable pub acquire_over :
      Option QuotaError
      → String
      → Usage
      → List (String × Usage)
      → Option QuotaError × List (String × Usage)
  acquire_over (some e) profile delta usage = (some e, usage)
  acquire_over none profile delta usage =
      (none, insert profile (plus (lookup_or unused profile usage) delta) usage)

  unfoldable pub acquire :
      String → Usage → List (String × Usage) → Option QuotaError × List (String × Usage)
  acquire profile delta usage =
      acquire_over (check_quota (lookup profile quotas) (lookup_or unused profile usage) delta)
        profile delta usage

unfoldable pub release : String → Usage → List (String × Usage) → List (String × Usage)
release profile delta usage = insert profile (minus (lookup_or unused profile usage) delta) usage
