-- ===== src/Policy/Org.antt =====
-- internal/policy/compiler/org.go: the governance pack of the org layer.
use the_foundry.Prelude.{Bool, false, ◌||◌, ◌==◌, String, Option, none, some, List, if◌then◌else◌}
use the_foundry.Policy.{org, push_authorization, scm_provider, unknown_value, CompileError}
use the_foundry.Policy.Merge.{failure}

pub record OrgGovernancePack : Type 0 where
  pub required_approver_roles : List String
  pub push_authorization : String
  pub scm_provider : String

unfoldable pub allows_push_by : OrgGovernancePack → String → Bool
allows_push_by g principal =
    if g.push_authorization == "kernel-only" then principal == "service:go-kernel" else false

unfoldable pub validate_org_governance_pack : OrgGovernancePack → Option CompileError
validate_org_governance_pack g =
    if g.push_authorization == "kernel-only" || g.push_authorization == ""
    then (if g.scm_provider == "" || g.scm_provider == "github" || g.scm_provider == "bitbucket"
        then none
        else some (failure org scm_provider unknown_value))
    else some (failure org push_authorization unknown_value)
