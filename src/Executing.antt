-- ===== src/Executing.antt =====
-- job_runner.go: `executeJob`. This file has the host's side of it: another request may act while the
-- host prepares a workspace or runs a container, so these are operations on the data directory.
pub mod Ending
pub mod Acting
pub mod Spawning
pub mod Running
use opm_api.Prelude.{
  ℕ, String, Bool, true, false, not, ◌&&◌, ◌||◌, Option, none, some, List, [], ◌∷◌, ◌<>◌, ◌==◌,
  Result, ok, err, is_empty, nz, contains, contains_text, trim_space, truncate_runes, replace_all,
  if◌then◌else◌,
}
use opm_api.Models.{Time, Project, Job, task_autopilot}
use opm_api.Actions.{uses_task_workspace, unsupported_review_action}
use opm_api.World.{Op, Done, pure, ignore, attempt, try, ◌>>=◌, ◌>>◌}
use opm_api.World.Layout.{get_project}
use opm_api.Store.Tasks.{get_task, append_spec_log}
use opm_api.Store.Documents.{append_project_log}
use opm_api.Store.Jobs.{get_job, update_job}
use opm_api.ChangeSet.Apply.{Limits, Workspace}
use opm_api.Results.{RunnerResult}
use opm_api.Results.Planning.{apply_model_planning}
use opm_api.Results.Implementing.{apply_model_implementation_opts}
use opm_api.Runner.{Outcome, done_with, failed_with}
use opm_api.Runner.Planning.{builtin_planning}
use opm_api.Runner.Implementing.{builtin_implementation_opts}
use opm_api.Runner.Pausing.{builtin_pause, builtin_resume, task_paused_block}
use opm_api.Runner.Repairing.{builtin_recover, builtin_mark_stuck}
use opm_api.Runner.Skipping.{builtin_skip_to_phase}
use opm_api.Runner.Changelog.{builtin_changelog}
use opm_api.Runner.Pipeline.{PipelineSteps, run_pipeline}
use opm_api.Roadmaps.Discovering.{apply_model_roadmap_discovery, builtin_roadmap_discovery}
use opm_api.Roadmaps.Proposing.{
  can_discover, apply_model_roadmap_features, builtin_roadmap_features,
}
use opm_api.Autopilot.{Settings}

-- What a container left: its output, and its result where it wrote one.
pub record ContainerOutcome : Type 0 where
  pub stdout : String
  pub result : Option RunnerResult

-- The host's side of a job: workspaces, containers, the notes on them, and the steps that are not
-- modelled, which call the peers. `session_files` is the file system of a session's workspace, at the
-- state that is given; `session` tells whether that is a clone.
pub record JobHosts (S : Type 0) : Type 0 where
  pub ensure_task_workspace : Project → Job → Op String
  pub prepare_job_workspace : Project → Job → Op String
  pub task_workspace_note : Project → String → String → String
  pub clone_note : Project → String → String
  pub run_task_container : Job → String → Op ContainerOutcome
  pub pipeline_steps : Job → String → PipelineSteps
  pub session_files : Workspace S
  pub session_state : String → S
  pub session : String → Bool
  pub limits : Limits
  pub model_competitor : Job → RunnerResult → Op Outcome
  pub builtin_competitor : Job → Op Outcome
  pub builtin_publish : Job → Op Outcome

-- What the clock gives: the text of a time, and the ids of `shortID`.
pub record Clock : Type 0 where
  pub now : Time
  pub rfc3339 : Time → String
  pub phase_id : ℕ → String
  pub feat_id : ℕ → String
  pub idea_id : ℕ → String
