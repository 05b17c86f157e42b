-- ===== src/Models/Projects.antt =====
-- models.go: projects, the board columns and the board, and the live status of a project.
use opm_api.Prelude.{ℕ, String, Bool, true, false, Option, none, some, List, [], ◌∷◌}

abbrev pub Time : Type 0
Time = ℕ

abbrev pub board_columns : List String
board_columns = "backlog" ∷ "queue" ∷ "in_progress" ∷ "review" ∷ "human_review" ∷ "done" ∷ []

pub record Project : Type 0 where
  pub id : String
  pub name : String
  pub owner_repo : String
  pub github_repo_id : String
  pub connector_id : String
  pub organization_id : String
  pub html_url : String
  pub default_branch : String
  pub github_project_id : String
  pub github_project_title : String
  pub github_project_url : String
  pub auto_start_on_move : Option Bool
  pub created_at : Time
  pub updated_at : Time

-- A pointer that is nil counts as ON.
unfoldable pub auto_start_on_move : Project → Bool
auto_start_on_move p = elim p.auto_start_on_move [ none ↦ true | some b ↦ b ]

-- `map[string][]string`: a column that is absent or null reads as the empty list in every use.
abbrev pub Board : Type 0
Board = String → List String

unfoldable pub empty_board : Board
empty_board c = []

pub record ProjectStatus : Type 0 where
  pub active : Bool
  pub spec : String
  pub state : String
  pub subtasks_completed : ℕ
  pub subtasks_total : ℕ
  pub subtasks_in_progress : ℕ
  pub subtasks_failed : ℕ
  pub phase_current : String
  pub phase_id : ℕ
  pub phase_total : ℕ
  pub workers_active : ℕ
  pub workers_max : ℕ
  pub last_update : Time
  pub run_id : String

unfoldable pub idle_status : Time → ProjectStatus
idle_status now = record {
  active = false;
  spec = "";
  state = "idle";
  subtasks_completed = 0;
  subtasks_total = 0;
  subtasks_in_progress = 0;
  subtasks_failed = 0;
  phase_current = "";
  phase_id = 0;
  phase_total = 0;
  workers_active = 0;
  workers_max = 1;
  last_update = now;
  run_id = "";
}
