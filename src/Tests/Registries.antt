-- ===== src/Tests/Registries.antt =====
-- The registry's operations on the demo directory.
use opm_api.Prelude.{
  nz, chars, update, true, false, none, some, [], ◌∷◌, ◌==◌, ◌≡◌, refl, trim_space, find,
  if◌then◌else◌, split, trim, trim_prefix, trim_suffix,
}
use opm_api.Models.{Project}
use opm_api.World.{◌>>=◌, World, write, write_registry}
use opm_api.World.Layout.{write_if, find_project, ensure_layout}
use opm_api.Registry.{
  ensure_in, board_project, is_linked, display_name, list_projects, put_project,
  set_github_project_binding, add_project, bind_in, NewProject, ensure_project, bind_github_project,
  unbind_github_project,
}
use opm_api.Registry.Names.{repo_name, normalize_owner_repo}
use opm_api.Registry.Scope.{Tenancy, normalize_write_org}
use opm_api.Registry.Tenants.{ids}
use opm_api.Registry.Binding.{bind-unbind}
use opm_api.Registry.Ensuring.{Ensured, ensure_project-Ensured}
use opm_api.Tests.Demo

abbrev tenancy : Tenancy
tenancy = record { all = "all"; enforced = true }

abbrev request : NewProject
request = record {
  id = "p2";
  name = "";
  owner_repo = "https://github.com/acme/other.git";
  github_repo_id = "";
  connector_id = "c1";
  organization_id = "org-1";
  html_url = "";
  default_branch = "";
}

abbrev ensured : Project
ensured = record {
  id = "p2";
  name = "other";
  owner_repo = "acme/other";
  github_repo_id = "";
  connector_id = "c1";
  organization_id = "org-1";
  html_url = "https://github.com/acme/other";
  default_branch = "main";
  github_project_id = "";
  github_project_title = "";
  github_project_url = "";
  auto_start_on_move = none;
  created_at = 9;
  updated_at = 9;
}

ensure_project-Ensured_example :
    ((trim_space request.id == "") ≡ false)
    × Ensured
        (trim_space request.id)
        (normalize_owner_repo request.owner_repo)
        ensured
        Demo.world.registry
        (ensure_project tenancy 9 request Demo.world).1.registry
unfolding ensure_project trim_space ◌>>=◌ list_projects ensure_in find_project normalize_owner_repo
    split trim_suffix trim_prefix chars add_project write_registry ensure_layout write write_if
    update board_project find is_linked display_name repo_name trim nz normalize_write_org
ensure_project-Ensured_example =
    ensure_project-Ensured tenancy 9 request Demo.world {p = ensured} refl

abbrev bound_project : Project
bound_project = record (Demo.project) {
  github_project_id = "g1";
  github_project_title = "Plan";
  updated_at = 9;
}

abbrev registered : Project → World
registered p = record (Demo.world) { registry = p ∷ [] }

bind-unbind_example :
    (old : Project) × (find_project "p1" Demo.world.registry ≡ some old)
    × ("g1" ≡ trim_space "g1")
    × (("g1" == "") ≡ false)
    × (record (Demo.project) { updated_at = 10 } ≡ record old {
      github_project_id = "";
      github_project_title = "";
      github_project_url = "";
      updated_at = 10;
    })
    × ("p1" ∷ [] ≡ ids Demo.world.registry)
    × (find_project "p1" (record (Demo.project) { updated_at = 10 } ∷ []) ≡ (
        if "p1" == "p1"
        then some (record (Demo.project) { updated_at = 10 })
        else find_project "p1" Demo.world.registry))
unfolding bind_github_project trim_space set_github_project_binding ◌>>=◌ list_projects bind_in
    find_project write_registry put_project unbind_github_project
bind-unbind_example =
    bind-unbind 9 10 "p1" "g1" "Plan" "" "p1" Demo.world (registered bound_project)
      (registered (record (Demo.project) { updated_at = 10 })) {p = bound_project}
      {q = record (Demo.project) { updated_at = 10 }} refl refl
