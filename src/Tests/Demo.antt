-- ===== src/Tests/Demo.antt =====
-- A directory with one project, which has one task with a plan of three subtasks.
use opm_api.Prelude.{String, true, false, none, some, List, [], ◌∷◌, ◌==◌, if◌then◌else◌}
use opm_api.Models.{
  Time, Project, Board, idle_status, Task, PlanSubtask, PlanPhase, ImplementationPlan, Job,
  empty_ideation,
}
use opm_api.World.{SpecDir, World}
use opm_api.World.Layout.{first_roadmap}
use opm_api.Store.Running.{View}
use opm_api.Store.Jobs.{fresh_job}
use opm_api.Store.Creating.{NewTask}

abbrev pub project : Project
project = record {
  id = "p1";
  name = "Demo";
  owner_repo = "acme/demo";
  github_repo_id = "";
  connector_id = "c1";
  organization_id = "";
  html_url = "";
  default_branch = "main";
  github_project_id = "";
  github_project_title = "";
  github_project_url = "";
  auto_start_on_move = none;
  created_at = 0;
  updated_at = 0;
}

abbrev pub task_in : String → Time → Task
task_in status at = record {
  id = "u1";
  spec_id = "001-a";
  title = "A";
  description = "";
  status = status;
  require_review_before_coding = false;
  human_review_required = none;
  ideation_id = "";
  ideation_type_key = "";
  github_milestone_number = 0;
  github_milestone_title = "";
  github_milestone_url = "";
  github_project_id = "";
  github_project_item_id = "";
  github_project_synced_at = none;
  github_project_sync_error = "";
  github_issue_number = 0;
  github_issue_url = "";
  github_issue_state = "";
  github_issue_title = "";
  github_issue_assignee = "";
  github_issue_labels = [];
  github_issue_synced_at = none;
  github_issue_sync_error = "";
  delivery_branch = "";
  delivery_commit_sha = "";
  delivery_files = [];
  delivered_at = none;
  pr_number = 0;
  pr_url = "";
  pr_state = "";
  delivery_status = "";
  delivery_error = "";
  created_at = 0;
  updated_at = at;
}

abbrev pub subtask : String → String → PlanSubtask
subtask id status = record {
  id = id;
  description = "";
  status = status;
  service = "";
  files_to_modify = [];
  verification = "";
}

abbrev pub phases : List PlanPhase
phases =
    record {
      phase = 1;
      name = "Design";
      type = "planning";
      parallel_safe = false;
      depends_on = [];
      subtasks = subtask "1-0" "completed" ∷ [];
    }
    ∷ record {
      phase = 2;
      name = "Implement";
      type = "coding";
      parallel_safe = false;
      depends_on = 1 ∷ [];
      subtasks = subtask "2-0" "in_progress" ∷ subtask "2-1" "pending" ∷ [];
    }
    ∷ []

abbrev pub plan : ImplementationPlan
plan = record {
  feature = "A";
  workflow_type = "feature";
  services_involved = [];
  spec_file = "spec.md";
  status = "ready";
  plan_status = "ready";
  final_acceptance = [];
  phases = phases;
}

abbrev pub spec : SpecDir
spec = record {
  task = some (task_in "queue" 0);
  plan = some plan;
  progress = none;
  spec_md = none;
  approved = none;
  changes = none;
  notes = none;
  logs = λ phase. "";
}

abbrev pub board : Board
board c = if c == "queue" then "001-a" ∷ [] else []

abbrev pub world : World
world = record {
  registry = project ∷ [];
  projects = λ id. record {
    board = some board;
    status = some (idle_status 0);
    roadmap = some (first_roadmap project);
    ideation = some empty_ideation;
    changelog = some "";
    specs = ("001-a", spec) ∷ [];
    runs = [];
    logs = λ phase. "";
  };
  writable = λ f. true;
}

abbrev pub view : View
view = record { spec = spec; board = board; runs = [] }

abbrev pub job : Job
job = fresh_job 1 "r1" "p1" "run-pipeline" "001-a" ""

abbrev pub request : NewTask
request = record {
  title = "Hello";
  description = "";
  require_review = false;
  human_review_required = true;
  ideation_id = "";
  ideation_type = "";
}
