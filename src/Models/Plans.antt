-- ===== src/Models/Plans.antt =====
-- models.go: the implementation plan of a task and the progress of its automation.
use opm_api.Prelude.{ℕ, String, Bool, false, Option, none, List}
use opm_api.Models.Projects.{Time}

pub record PlanSubtask : Type 0 where
  pub id : String
  pub description : String
  pub status : String
  pub service : String
  pub files_to_modify : List String
  pub verification : String

pub record PlanPhase : Type 0 where
  pub phase : ℕ
  pub name : String
  pub type : String
  pub parallel_safe : Bool
  pub depends_on : List ℕ
  pub subtasks : List PlanSubtask

pub record ImplementationPlan : Type 0 where
  pub feature : String
  pub workflow_type : String
  pub services_involved : List String
  pub spec_file : String
  pub status : String
  pub plan_status : String
  pub final_acceptance : List String
  pub phases : List PlanPhase

pub record TaskProgress : Type 0 where
  pub is_running : Bool
  pub paused : Bool
  pub action : String
  pub started_at : Option Time
  pub completed_at : Option Time
  pub progress : ℕ
  pub subtask_completed : ℕ
  pub subtask_total : ℕ
  pub current_phase_name : String
  pub run_id : String
  pub stuck_subtask_id : String

-- `TaskProgress{}`.
abbrev pub no_progress : TaskProgress
no_progress = record {
  is_running = false;
  paused = false;
  action = "";
  started_at = none;
  completed_at = none;
  progress = 0;
  subtask_completed = 0;
  subtask_total = 0;
  current_phase_name = "";
  run_id = "";
  stuck_subtask_id = "";
}
