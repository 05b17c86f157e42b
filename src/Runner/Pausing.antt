-- ===== src/Runner/Pausing.antt =====
-- `builtinPause`, `builtinResume` and `taskPausedBlock` of job_runner.go.
pub mod Laws
use opm_api.Prelude.{String, Bool, true, false, not, Option, none, some, ◌<>◌, ◌==◌, if◌then◌else◌}
use opm_api.Models.{Time, TaskProgress, Job}
use opm_api.Actions.{is_pause_exempt}
use opm_api.World.{Op, pure, ignore, attempt, try, ◌>>=◌, ◌>>◌}
use opm_api.Store.Tasks.{get_progress, put_progress, append_spec_log}
use opm_api.Runner.{Outcome, done_with, failed_with, or_fail, progress_or_none, put_status}

abbrev pub paused_message : String
paused_message = "Task is paused — enqueue resume-task before continuing automation."

module _ (now : Time) (j : Job) where
  abbrev pub paused_progress : TaskProgress → TaskProgress
  paused_progress prog = record prog {
    paused = true;
    is_running = false;
    action = "paused";
    run_id = j.run_id;
    completed_at = some now;
  }

  abbrev pub resumed_progress : TaskProgress → TaskProgress
  resumed_progress prog = record prog {
    paused = false;
    is_running = false;
    action = "resumed";
    run_id = j.run_id;
  }

  unfoldable pub builtin_pause : Op Outcome
  builtin_pause =
      if j.spec_id == "" then failed_with "pause-task requires specId" "specId required" else do
        prog ← progress_or_none now j.project_id j.spec_id
        if prog.paused then done_with "Task already paused." else do
          r ← try (put_progress now j.project_id j.spec_id (paused_progress prog))
          or_fail "Failed to write pause state" r do
            put_status now j.project_id j.spec_id j.run_id "idle"
            ignore (
                append_spec_log now j.project_id j.spec_id "implementation"
                  ("[" <> j.run_id <> "] pause-task: automation paused\n"))
            done_with
                "Task paused (builtin): further plan/build/review jobs blocked until resume-task."

  unfoldable pub builtin_resume : Op Outcome
  builtin_resume =
      if j.spec_id == "" then failed_with "resume-task requires specId" "specId required" else do
        prog ← progress_or_none now j.project_id j.spec_id
        if not prog.paused then done_with "Task was not paused." else do
          r ← try (put_progress now j.project_id j.spec_id (resumed_progress prog))
          or_fail "Failed to clear pause state" r do
            ignore (
                append_spec_log now j.project_id j.spec_id "implementation"
                  ("[" <> j.run_id <> "] resume-task: automation resumed\n"))
            done_with "Task resumed (builtin): plan/build/review jobs allowed again."

  -- `none` where the job may run.
  unfoldable pub task_paused_block : Op (Option String)
  task_paused_block =
      if is_pause_exempt j.action then pure none else if j.spec_id == "" then pure none else do
        found ← attempt (get_progress now j.project_id j.spec_id)
        pure (elim found [
          | none ↦ none
          | some prog ↦ if prog.paused then some paused_message else none
        ])
