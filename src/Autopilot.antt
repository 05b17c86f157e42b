-- ===== src/Autopilot.antt =====
-- autopilot.go and board_triggers.go: the jobs that the service starts by itself, for a new task,
-- after planning and after a drag of a card, and the parking of a task after coding.
pub mod Dragging
pub mod Chaining
pub mod Continuing
use opm_api.Prelude.{
  ℕ, String, Bool, true, false, not, ◌&&◌, Option, none, some, List, [], ◌∷◌, ◌<>◌, ◌==◌, Result,
  ok, err, nz, trim_space, if◌then◌else◌,
}
use opm_api.Models.{
  Time, Project, auto_start_on_move, Task, Job, JobOrigin, job_origin_from, task_autopilot,
}
use opm_api.Actions.{column_job_action, job_is_active}
use opm_api.World.{Op, Done, pure, fail, ignore, attempt, try, ◌>>=◌, ◌>>◌}
use opm_api.Store.Tasks.{get_task, get_progress, append_spec_log, move_task, approve_for_coding}
use opm_api.Store.Jobs.{create_job_with_origin, list_jobs, update_job}
use opm_api.Runner.Pausing.{task_paused_block}

-- The configuration that is read: the runner's image, whether containers can be spawned, and whether
-- an implementation follows planning.
pub record Settings : Type 0 where
  pub runner_image : String
  pub container : Bool
  pub auto_chain : Bool

pub record BoardTriggerOutcome : Type 0 where
  pub started : Bool
  pub action : String
  pub run_id : String
  pub reason : String

abbrev pub not_started : String → BoardTriggerOutcome
not_started reason = record { started = false; action = ""; run_id = ""; reason = reason }

-- The first active job of the task, of the jobs of the project.
unfoldable pub first_active : String → List Job → Option Job
first_active spec_id [] = none
first_active spec_id (j ∷ js) =
    let later = first_active spec_id js in
    if not (j.spec_id == spec_id)
    then later
    else if not (job_is_active j.state)
    then later
    else some j

abbrev pub paused_reason : String
paused_reason = "task is paused — resume it before automation continues"

unfoldable pub active_message : Job → String
active_message j =
    "job " <> j.run_id <> " (" <> j.action <> ") is already " <> j.state <> " for this task"

module _ (now : Time) where
  -- Why a drag starts nothing; `none` where it may.
  unfoldable pub board_trigger_blocked : Project → Task → Op (Option String)
  unfolding first_active
  board_trigger_blocked p t = do
    prog ← attempt (get_progress now p.id t.spec_id)
    if elim prog [ none ↦ false | some g ↦ g.paused ] then pure (some paused_reason) else do
      jobs ← try (list_jobs now p.id)
      elim jobs [
        | err e ↦ pure (some ("could not check for running jobs: " <> e))
        | ok js ↦ elim (first_active t.spec_id js) [
          | none ↦ pure none
          | some j ↦ pure (some (active_message j))
        ]
      ]

module _ (cfg : Settings) (now : Time) (uuid : String) where
  -- The start of the job, with the job that is handed to `executeJob`.
  unfoldable pub start_for_column :
      Project → Task → String → String → JobOrigin → Op (BoardTriggerOutcome × Option Job)
  start_for_column p t column action actor = do
    created ← try (create_job_with_origin now uuid p.id action t.spec_id cfg.runner_image actor)
    elim created [
      | err e ↦ pure (not_started ("could not create job: " <> e), none)
      | ok j ↦ do
        let j' = record j {
          execution = "container";
          message = "Queued by board move to " <> column <> ".";
        }
        ignore (update_job now p.id j')
        pure (
          record {
            started = true;
            action = action;
            run_id = j.run_id;
            reason = "board move to " <> column <> " started " <> action;
          },
          some j',
        )
    ]

  unfoldable pub maybe_start_job_for_column :
      Project → Task → JobOrigin → Op (BoardTriggerOutcome × Option Job)
  maybe_start_job_for_column p t actor =
      let column = trim_space t.status in
      elim (column_job_action column) [
        | none ↦ pure (not_started ("column \"" <> column <> "\" starts no job"), none)
        | some action ↦
            if not (auto_start_on_move p)
            then pure (not_started "autoStartOnMove is off for this project", none)
            else if trim_space t.spec_id == ""
            then pure (not_started "task has no spec", none)
            else do
              blocked ← board_trigger_blocked now p t
              elim blocked [
                | some reason ↦ pure (not_started reason, none)
                | none ↦ start_for_column p t column action actor
              ]
      ]

  -- The job that follows another for the same actor; it is handed to `executeJob`.
  unfoldable pub chain_job : Job → String → Op Job
  chain_job j action =
      create_job_with_origin now uuid j.project_id action j.spec_id
        (nz j.runner_image cfg.runner_image) (job_origin_from j)

  -- The pipeline of a new task; it is handed to `executeJob`.
  unfoldable pub enqueue_pipeline_job : String → String → JobOrigin → Op Job
  enqueue_pipeline_job project_id spec_id origin = do
    j ← create_job_with_origin now uuid project_id "run-pipeline" spec_id cfg.runner_image origin
    let j' =
        if cfg.container
        then record j { execution = "container"; message = "Queued by task create: run-pipeline." }
        else record j {
          execution = "builtin";
          message = "Queued by task create (builtin): run-pipeline.";
        }
    ignore (update_job now project_id j')
    pure j'

  -- What follows the gate: the implementation, with the job that is handed to `executeJob`.
  unfoldable pub chain_implementation : Job → Op (String × Option Job)
  chain_implementation j =
      if not cfg.auto_chain
      then pure ("Planning complete — enqueue run-implementation to continue.", none)
      else do
        next ← chain_job j "run-implementation"
        pure (
          "Planning complete — chained run-implementation (job " <> next.run_id <> ").",
          some next,
        )

  unfoldable pub post_planning_job : Job → Op (String × Option Job)
  post_planning_job j = if j.spec_id == "" then pure ("", none) else do
    t ← get_task now j.project_id j.spec_id
    blocked ← task_paused_block now j
    elim blocked [
      | some _ ↦ pure ("Planning complete — task paused; automation stopped.", none)
      | none ↦
          if not (t.require_review_before_coding && t.status == "human_review")
          then chain_implementation j
          else if not (task_autopilot t)
          then pure ("Planning complete — approve for coding required before implementation.", none)
          else do
            approve_for_coding now j.project_id j.spec_id
            ignore (
                append_spec_log now j.project_id j.spec_id "planning"
                  ("[" <> j.run_id <> "] auto-approved for coding after planning\n"))
            chain_implementation j
    ]

unfoldable pub park_task_for_human_review : Time → Job → Op String
park_task_for_human_review now j = if j.spec_id == "" then pure "" else do
  blocked ← task_paused_block now j
  elim blocked [
    | some _ ↦ pure "Coding complete — task paused; shared workspace retained."
    | none ↦ do
      move_task now j.project_id j.spec_id "review"
      ignore (
          append_spec_log now j.project_id j.spec_id "implementation"
            ("[" <> j.run_id <> "] coding complete → review (human approve/deliver)\n"))
      pure "All coding subtasks complete — parked in review for human approve/deliver."
  ]
