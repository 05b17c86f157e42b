-- ===== src/Store/Creating.antt =====
-- `CreateTask` of store.go.
pub mod Laws
pub mod Created
use opm_api.Prelude.{
  String, Bool, true, false, Option, none, some, List, [], ◌<>◌, ◌==◌, map, lookup, nz, trim_space,
  if◌then◌else◌, Dict,
}
use opm_api.Models.{Time, Project, Board, empty_board, Task, ImplementationPlan, no_progress}
use opm_api.Board.{add_to_backlog}
use opm_api.World.{File, SpecDir, World, Op, Done, pure, ignore, value_or, write, ◌>>=◌, ◌>>◌}
use opm_api.World.Layout.{with_project}
use opm_api.Store.SpecIds.{next_spec_id}
use opm_api.Store.Tasks.{read, write_spec, write_spec_file}

-- The names that `os.ReadDir` lists.
abbrev pub entry_names {ℓ} : {V : Type ℓ} → Dict V → List String
entry_names m = map (λ e. e.0) m

unfoldable pub first_plan : String → ImplementationPlan
first_plan title = record {
  feature = title;
  workflow_type = "feature";
  services_involved = [];
  spec_file = "spec.md";
  status = "pending";
  plan_status = "drafted";
  final_acceptance = [];
  phases = [];
}

-- What a request to create a task says.
pub record NewTask : Type 0 where
  pub title : String
  pub description : String
  pub require_review : Bool
  pub human_review_required : Bool
  pub ideation_id : String
  pub ideation_type : String

unfoldable pub new_task : Time → String → String → NewTask → Task
new_task now uuid spec_id n = record {
  id = uuid;
  spec_id = spec_id;
  title = nz (trim_space n.title) "Untitled task";
  description = n.description;
  status = "backlog";
  require_review_before_coding = n.require_review;
  human_review_required = some n.human_review_required;
  ideation_id = n.ideation_id;
  ideation_type_key = n.ideation_type;
  github_milestone_number = 0;
  github_milestone_title = "";
  github_milestone_url = "";
  github_project_id = "";
  github_project_item_id = "";
  github_project_synced_at = none;
  github_project_sync_error = "";
  github_issue_number = 0;
  github_issue_url = "";
  github_issue_state = "";
  github_issue_title = "";
  github_issue_assignee = "";
  github_issue_labels = [];
  github_issue_synced_at = none;
  github_issue_sync_error = "";
  delivery_branch = "";
  delivery_commit_sha = "";
  delivery_files = [];
  delivered_at = none;
  pr_number = 0;
  pr_url = "";
  pr_state = "";
  delivery_status = "";
  delivery_error = "";
  created_at = now;
  updated_at = now;
}

-- The writes under the lock, for the id of the new task.
unfoldable pub write_new_task : Task → Project → Op Task
write_new_task t p = do
  write_spec File.dirs p t.spec_id (λ d. d)
  write_spec File.task p t.spec_id (λ d. record d { task = some t })
  ignore (write_spec File.plan p t.spec_id (λ d. record d { plan = some (first_plan t.title) }))
  ignore (write_spec File.progress p t.spec_id (λ d. record d { progress = some no_progress }))
  ignore (
      write_spec_file File.spec_md p t.spec_id
        (λ d. record d { spec_md = some ("# " <> t.title <> "\n\n" <> t.description <> "\n") }))
  b ← value_or empty_board (read (λ d. d.board) p)
  write File.board p.id (λ d. record d { board = some (add_to_backlog t.spec_id b) })
  pure t

unfoldable pub create_in : Time → String → NewTask → Project → Op Task
create_in now uuid n p w =
    let names = entry_names (w.projects p.id).specs in
    let spec_id = next_spec_id names (nz (trim_space n.title) "Untitled task") in
    write_new_task (new_task now uuid spec_id n) p w

unfoldable pub create_task : Time → String → String → NewTask → Op Task
create_task now uuid project_id n = with_project now project_id (create_in now uuid n)
