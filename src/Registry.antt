-- ===== src/Registry.antt =====
-- The registry of projects in store.go, and the scope of a project in tenant_scope.go.
pub mod Scope
pub mod Names
pub mod Tenants
pub mod Entries
pub mod Linking
pub mod Binding
pub mod Ensuring
use opm_api.Prelude.{
  ℕ, String, Bool, true, false, not, ◌&&◌, ◌||◌, Option, none, some, List, [], ◌∷◌, ◌++◌, ◌<>◌,
  ◌==◌, Result, ok, err, find, nz, trim_space, if◌then◌else◌, map,
}
use opm_api.Models.{Time, Project}
use opm_api.World.{
  File, ProjectDir, World, Op, Done, pure, fail, ignore, write, write_registry, ◌>>=◌, ◌>>◌,
}
use opm_api.World.Layout.{ensure_layout, find_project, get_project}
use opm_api.Registry.Scope.{Tenancy, project_in_org, normalize_write_org}
use opm_api.Registry.Names.{normalize_owner_repo, repo_name}

unfoldable pub list_projects : Op (List Project)
list_projects w = (ok w.registry, w)

-- The fields of a request that the registry reads.
pub record NewProject : Type 0 where
  pub id : String
  pub name : String
  pub owner_repo : String
  pub github_repo_id : String
  pub connector_id : String
  pub organization_id : String
  pub html_url : String
  pub default_branch : String

unfoldable pub is_linked : String → Project → Bool
is_linked owner_repo p = normalize_owner_repo p.owner_repo == owner_repo

unfoldable pub new_project : Tenancy → Time → String → String → String → NewProject → Project
new_project tenancy now id name owner_repo req = record {
  id = id;
  name = name;
  owner_repo = owner_repo;
  github_repo_id = trim_space req.github_repo_id;
  connector_id = trim_space req.connector_id;
  organization_id = normalize_write_org tenancy req.organization_id;
  html_url = trim_space req.html_url;
  default_branch = nz (trim_space req.default_branch) "main";
  github_project_id = "";
  github_project_title = "";
  github_project_url = "";
  auto_start_on_move = none;
  created_at = now;
  updated_at = now;
}

abbrev pub github_url : String → String
github_url owner_repo = "https://github.com/" <> owner_repo

-- The entry is appended, and its files are made.
unfoldable pub add_project : Time → Project → Op Project
add_project now p = do
  ps ← list_projects
  write_registry (ps ++ p ∷ [])
  ensure_layout now p
  pure p

-- The entry of `CreateProject`.
unfoldable pub linked_project : Tenancy → Time → String → String → NewProject → Project
unfolding new_project
linked_project tenancy now uuid owner_repo req =
    let name = trim_space req.name in
    let p =
      new_project tenancy now uuid (if name == "" then repo_name owner_repo else name) owner_repo
        req in
    record p { html_url = if p.html_url == "" then github_url owner_repo else p.html_url }

-- `CreateProject`, over the entries that are read.
unfoldable pub link_in : Tenancy → Time → String → String → NewProject → List Project → Op Project
unfolding is_linked find
link_in tenancy now uuid owner_repo req ps = elim (find (is_linked owner_repo) ps) [
  | some _ ↦ fail "repository already linked"
  | none ↦ add_project now (linked_project tenancy now uuid owner_repo req)
]

unfoldable pub create_project : Tenancy → Time → String → NewProject → Op Project
create_project tenancy now uuid req =
    let owner_repo = normalize_owner_repo req.owner_repo in
    if owner_repo == "" || trim_space req.connector_id == ""
    then fail "ownerRepo and connectorId required"
    else list_projects >>= link_in tenancy now uuid owner_repo req

-- The blank fields of an entry are filled from the request, and its organisation is refreshed. The
-- second component tells whether anything was changed.
unfoldable pub fill : Bool → String → String × Bool → String × Bool
fill blank new (old, changed) = if not (new == "") && blank then (new, true) else (old, changed)

unfoldable pub enrich : Tenancy → String → String → NewProject → Project → Project × Bool
unfolding fill
enrich tenancy name owner_repo req p =
    let org = normalize_write_org tenancy req.organization_id in
    let stored = normalize_write_org tenancy p.organization_id in
    let (repo, c₁) =
      fill (normalize_owner_repo p.owner_repo == "") owner_repo (p.owner_repo, false) in
    let (connector, c₂) =
      fill (trim_space p.connector_id == "") (trim_space req.connector_id) (p.connector_id, c₁) in
    let (repo_id, c₃) =
      fill (trim_space p.github_repo_id == "") (trim_space req.github_repo_id)
        (p.github_repo_id, c₂) in
    let (url, c₄) = fill (trim_space p.html_url == "") (trim_space req.html_url) (p.html_url, c₃) in
    let (named, c₅) = fill (trim_space p.name == "") name (p.name, c₄) in
    let (owner, c₆) = fill (stored == "" || not (stored == org)) org (p.organization_id, c₅) in
    (
      record p {
        owner_repo = repo;
        connector_id = connector;
        github_repo_id = repo_id;
        html_url = url;
        name = named;
        organization_id = owner;
      },
      c₆,
    )

-- The list with its first entry of that id in place of it.
unfoldable pub put_project : String → Project → List Project → List Project
put_project id p [] = []
put_project id p (x ∷ xs) =
    let rest = put_project id p xs in if x.id == id then p ∷ xs else x ∷ rest

unfoldable pub display_name : NewProject → String → String → String
display_name req id owner_repo =
    let name = trim_space req.name in
    if not (name == "") then name else if not (owner_repo == "") then repo_name owner_repo else id

-- The registry has an entry with the id: what is filled in is written.
unfoldable pub refresh_project :
    Tenancy → Time → String → String → NewProject → Project → Op Project
refresh_project tenancy now name owner_repo req p =
    let (p', changed) = enrich tenancy name owner_repo req p in
    if changed
    then (do
      let p'' = record p' { updated_at = now }
      ps ← list_projects
      write_registry (put_project p.id p'' ps)
      ensure_layout now p''
      pure p'')
    else do ensure_layout now p'; pure p'

-- The new entry of `EnsureProject`.
unfoldable pub board_project : Tenancy → Time → String → String → String → NewProject → Project
unfolding new_project
board_project tenancy now id name owner_repo req =
    let p = new_project tenancy now id name owner_repo req in
    record p {
      html_url =
          if p.html_url == "" && not (owner_repo == "") then github_url owner_repo else p.html_url;
    }

abbrev insert_project : Tenancy → Time → String → String → String → NewProject → Op Project
insert_project tenancy now id name owner_repo req =
    add_project now (board_project tenancy now id name owner_repo req)

-- `EnsureProject`, over the entries that are read: the entry with the id, or the entry of the
-- repository, or a new one.
unfoldable pub ensure_in : Tenancy → Time → String → String → NewProject → List Project → Op Project
unfolding is_linked find
ensure_in tenancy now id owner_repo req ps =
    let name = display_name req id owner_repo in
    elim (find_project id ps) [
      | some p ↦ refresh_project tenancy now name owner_repo req p
      | none ↦ elim (if owner_repo == "" then none else find (is_linked owner_repo) ps) [
        | some p ↦ ensure_layout now p >> pure p
        | none ↦ insert_project tenancy now id name owner_repo req
      ]
    ]

unfoldable pub ensure_project : Tenancy → Time → NewProject → Op Project
ensure_project tenancy now req =
    let id = trim_space req.id in
    if id == ""
    then fail "id required"
    else list_projects >>= ensure_in tenancy now id (normalize_owner_repo req.owner_repo) req

-- The entry with the binding.
abbrev pub bound : Time → String → String → String → Project → Project
bound now gh_id title url p = record p {
  github_project_id = trim_space gh_id;
  github_project_title = trim_space title;
  github_project_url = trim_space url;
  updated_at = now;
}

-- `setGitHubProjectBinding`, over the entries that are read.
unfoldable pub bind_in : Time → String → String → String → String → List Project → Op Project
bind_in now project_id gh_id title url ps = elim (find_project project_id ps) [
  | none ↦ fail "project not found"
  | some p ↦
      write_registry (put_project project_id (bound now gh_id title url p) ps)
      >> pure (bound now gh_id title url p)
]

unfoldable pub set_github_project_binding : Time → String → String → String → String → Op Project
set_github_project_binding now project_id gh_id title url =
    list_projects >>= bind_in now project_id gh_id title url

unfoldable pub bind_github_project : Time → String → String → String → String → Op Project
bind_github_project now project_id gh_id title url =
    if trim_space gh_id == ""
    then fail "projectId required (use the unbind route to clear the binding)"
    else set_github_project_binding now project_id gh_id title url

unfoldable pub unbind_github_project : Time → String → Op Project
unbind_github_project now project_id = set_github_project_binding now project_id "" "" ""

-- The loop of `DeleteProject`, which keeps the entries with other ids.
unfoldable pub without_project : String → List Project → List Project
without_project id [] = []
without_project id (p ∷ ps) =
    let rest = without_project id ps in if p.id == id then rest else p ∷ rest

-- The files of a project that was removed.
abbrev pub no_files : ProjectDir
no_files = record {
  board = none;
  status = none;
  roadmap = none;
  ideation = none;
  changelog = none;
  specs = [];
  runs = [];
  logs = λ _. "";
}

-- `DeleteProject`, over the entries that are read.
unfoldable pub remove_in : String → List Project → Op Done
remove_in id ps = elim (find_project id ps) [
  | none ↦ fail "project not found"
  | some _ ↦ write_registry (without_project id ps) >> ignore (write File.dirs id (λ _. no_files))
]

unfoldable pub delete_project : String → Op Done
delete_project id = list_projects >>= remove_in id

unfoldable pub init_project : Time → String → Op Done
init_project now id = do p ← get_project id; ensure_layout now p

-- The loop of `ListProjectsForOrg`.
unfoldable pub in_org : Tenancy → String → List Project → List Project
in_org tenancy org [] = []
in_org tenancy org (p ∷ ps) =
    let rest = in_org tenancy org ps in if project_in_org tenancy p org then p ∷ rest else rest

unfoldable pub list_projects_for_org : Tenancy → String → Op (List Project)
list_projects_for_org tenancy org = do
  ps ← list_projects
  pure (if org == "" && not tenancy.enforced then ps else in_org tenancy org ps)

unfoldable pub get_project_for_org : Tenancy → String → String → Op Project
get_project_for_org tenancy id org = do
  p ← get_project id
  if not (project_in_org tenancy p org) then fail "project not found" else pure p
