-- ===== src/Registry/Scope.antt =====
-- tenant_scope.go: the organisation of a project, and who may see it.
use opm_api.Prelude.{String, Bool, true, false, not, ◌==◌, trim_space, to_lower, if◌then◌else◌}
use opm_api.Models.{Project}

-- The package open-tenant-go: `All`, and whether authentication is enforced.
pub record Tenancy : Type 0 where
  pub all : String
  pub enforced : Bool

module _ (tenancy : Tenancy) where
  unfoldable pub project_org_id : Project → String
  project_org_id p =
      let org = trim_space p.organization_id in if org == tenancy.all then "" else org

  unfoldable pub project_in_org : Project → String → Bool
  unfolding project_org_id
  project_in_org p org =
      let o = trim_space org in
      let scope = if o == tenancy.all then "" else o in
      if scope == ""
      then (if not tenancy.enforced then true else project_org_id p == "")
      else project_org_id p == scope

  unfoldable pub normalize_write_org : String → String
  normalize_write_org org =
      let o = trim_space org in if o == "" then "" else if o == tenancy.all then "" else o

  unfoldable pub concrete_project_header : String → Bool
  concrete_project_header header =
      let h = trim_space header in
      if h == ""
      then false
      else if to_lower h == to_lower tenancy.all
      then false
      else not (h == "default-project")
