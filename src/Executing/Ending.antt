-- ===== src/Executing/Ending.antt =====
-- The end of `executeJob` of job_runner.go: what is recorded of a job once its action is over.
pub mod Laws
use opm_api.Prelude.{
  ℕ, String, Bool, true, false, not, ◌&&◌, ◌||◌, Option, none, some, List, [], ◌∷◌, ◌<>◌, ◌==◌,
  Result, ok, err, contains, has_prefix, if◌then◌else◌,
}
use opm_api.Models.{Time, Job, idle_status}
use opm_api.World.{File, Op, Done, pure, ignore, attempt, try, write, ◌>>=◌, ◌>>◌}
use opm_api.World.Layout.{with_project}
use opm_api.Store.Jobs.{get_job, update_job}
use opm_api.Runner.{Outcome}
use opm_api.Autopilot.{Settings, post_planning_job}
use opm_api.Autopilot.Continuing.{post_implementation_job}

-- The actions that write the status of the project themselves.
abbrev pub keeps_status : String → Bool
keeps_status action =
    contains
      ("mark-stuck" ∷ "pause-task" ∷ "resume-task" ∷ "recover-subtask" ∷ "skip-to-phase" ∷ [])
      action

abbrev pub plans : String → Bool
plans action = action == "run-planning" || action == "run-followup-planning"

-- What the message goes on with, after what followed the job.
abbrev pub follow_up_text : String → Result (String × Option Job) → String × Option Job
follow_up_text name (err e) = (" Post-" <> name <> ": " <> e <> ".", none)
follow_up_text name (ok (extra, next)) = (if extra == "" then "" else " " <> extra, next)

module _ (now : Time) where
  abbrev pub failed_job : String → String → String → Job → Job
  failed_job execution message e j = record j {
    state = "failed";
    execution = execution;
    error = e;
    message = message;
    completed_at = some now;
  }

  abbrev pub completed_job : String → String → String → Job → Job
  completed_job action execution message j = record j {
    state = "completed";
    execution = execution;
    action = action;
    message = message;
    completed_at = some now;
    progress_pct = some 100;
  }

  -- The closure `fail`.
  unfoldable pub fail_job : String → Job → String → String → Op Done
  fail_job execution j message e =
      ignore (update_job now j.project_id (failed_job execution message e j))

  unfoldable pub idle_after : String → Job → Op Done
  unfolding contains
  idle_after action j =
      if keeps_status action
      then pure tt
      else ignore (
          with_project now j.project_id λ p.
            write File.status p.id
              (λ d. record d { status = some (record (idle_status now) { run_id = j.run_id }) }))

module _ (cfg : Settings) (now : Time) (uuid : String) (action : String) where
  -- The jobs that planning and implementation are followed by.
  unfoldable pub follow_up : Job → Op (String × Option Job)
  unfolding post_implementation_job
  follow_up j =
      if action == "run-implementation" && not (j.spec_id == "")
      then (do
        r ← try (post_implementation_job cfg now uuid j)
        pure (follow_up_text "implementation" r))
      else if plans action && not (j.spec_id == "")
      then (do r ← try (post_planning_job cfg now uuid j); pure (follow_up_text "planning" r))
      else pure ("", none)

  unfoldable pub complete_job : String → String → Job → Op (Option Job)
  unfolding follow_up idle_after
  complete_job execution message j = do
    (extra, next) ← follow_up j
    ignore (update_job now j.project_id (completed_job now action execution (message <> extra) j))
    idle_after now action j
    pure next

  abbrev pub told_message : String → String → String
  told_message spawn_note message =
      if not (spawn_note == "") && not (has_prefix message "Container")
      then spawn_note <> message
      else message

  -- The job as it is recorded now, which another request may have cancelled.
  unfoldable pub end_job : String → String → Outcome → Job → Op (Option Job)
  unfolding complete_job fail_job has_prefix
  end_job execution spawn_note out j =
      let message = told_message spawn_note out.message in
      if j.state == "cancelled" then pure none else elim out.error [
        | some e ↦ do fail_job now execution j message e; pure none
        | none ↦ complete_job execution message j
      ]

  unfoldable pub finish_job : String → String → String → String → Outcome → Op (Option Job)
  unfolding end_job
  finish_job project_id run_id execution spawn_note out = do
    found ← attempt (get_job now project_id run_id)
    elim found [ none ↦ pure none | some j ↦ end_job execution spawn_note out j ]
