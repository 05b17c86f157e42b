-- ===== src/Runner/Repairing.antt =====
-- `builtinRecover`, `builtinMarkStuck` and `markJobCancelledStuck` of job_runner.go.
pub mod Laws
use opm_api.Prelude.{
  is_empty, join, ℕ, String, Bool, false, Option, none, some, List, [], ◌∷◌, ◌<>◌, ◌==◌, length,
  show, if◌then◌else◌,
}
use opm_api.Models.{Time, ImplementationPlan, TaskProgress, Job}
use opm_api.Actions.{is_stuck_on_cancel}
use opm_api.Plan.{count_plan_subtasks, mark_next, reset_phases, pct}
use opm_api.World.{Op, Done, pure, ignore, try, attempt, ◌>>=◌, ◌>>◌}
use opm_api.Store.Tasks.{get_plan, put_plan, put_progress, append_spec_log, move_task}
use opm_api.Runner.{
  Outcome, done_with, failed_with, or_fail, plan_or_none, progress_or_none, put_status,
}
use opm_api.Runner.Implementing.{started_plan}

module _ (now : Time) (j : Job) where
  abbrev pub recovered_progress : ImplementationPlan → TaskProgress → TaskProgress
  recovered_progress plan prog =
      let (total, done) = count_plan_subtasks plan in
      record prog {
        paused = false;
        is_running = false;
        action = "recover-subtask";
        stuck_subtask_id = "";
        progress = pct done total;
        subtask_completed = done;
        subtask_total = total;
        current_phase_name = "Recovered";
        run_id = j.run_id;
      }

  -- What follows the reset of at least one subtask.
  unfoldable pub store_recovery : List String → ImplementationPlan → Op Outcome
  store_recovery recovered plan = do
    r ← try (put_plan now j.project_id j.spec_id plan)
    or_fail "Failed to update plan after recover" r do
      prog ← progress_or_none now j.project_id j.spec_id
      ignore (put_progress now j.project_id j.spec_id (recovered_progress plan prog))
      ignore (move_task now j.project_id j.spec_id "in_progress")
      ignore (
          append_spec_log now j.project_id j.spec_id "implementation" (
            "["
            <> j.run_id
            <> "] recover-subtask: reset "
            <> join ", " recovered
            <> " to pending\n"))
      put_status now j.project_id j.spec_id j.run_id "idle"
      done_with (
          "Recover (builtin): reset "
          <> show (length recovered)
          <> " subtask(s) ("
          <> join ", " recovered
          <> ") to pending; moved to in_progress. Re-enqueue run-implementation.")

  unfoldable pub builtin_recover : Op Outcome
  builtin_recover =
      if j.spec_id == ""
      then failed_with "recover-subtask requires specId" "specId required"
      else do
        plan ← plan_or_none now j.project_id j.spec_id
        if is_empty plan.phases
            then failed_with "No plan — run planning first" "plan missing"
            else (let (recovered, phases) = reset_phases plan.phases in
                if is_empty recovered
                then done_with "Recover (builtin): no stuck/failed/in_progress subtasks to reset."
                else store_recovery recovered (started_plan (record plan { phases = phases })))

  abbrev pub stuck_progress : String → TaskProgress → TaskProgress
  stuck_progress stuck_id prog = record prog {
    is_running = false;
    action = "stuck";
    stuck_subtask_id = stuck_id;
    run_id = j.run_id;
  }

  unfoldable pub builtin_mark_stuck : Op Outcome
  builtin_mark_stuck =
      if j.spec_id == "" then failed_with "mark-stuck requires specId" "specId required" else do
        plan ← plan_or_none now j.project_id j.spec_id
        if is_empty plan.phases
            then failed_with "No plan — run planning first" "plan missing"
            else (let (stuck_id, marked) = mark_next "stuck" plan in
                if stuck_id == ""
                then failed_with "Mark stuck (builtin): no pending/in_progress subtask to mark."
                    "nothing to mark"
                else do
                  ignore (put_plan now j.project_id j.spec_id marked)
                  prog ← progress_or_none now j.project_id j.spec_id
                  ignore (put_progress now j.project_id j.spec_id (stuck_progress stuck_id prog))
                  ignore (move_task now j.project_id j.spec_id "in_progress")
                  put_status now j.project_id j.spec_id j.run_id "stuck"
                  ignore (
                      append_spec_log now j.project_id j.spec_id "implementation"
                        ("[" <> j.run_id <> "] mark-stuck: subtask " <> stuck_id <> "\n"))
                  done_with (
                      "Marked subtask " <> stuck_id
                      <> " stuck (builtin). Enqueue recover-subtask to continue."))

  -- It marks the next subtask when a job is cancelled, and leaves the task where it stands.
  unfoldable pub mark_job_cancelled_stuck : Op Done
  mark_job_cancelled_stuck =
      if j.spec_id == ""
      then pure tt
      else if is_stuck_on_cancel j.action
      then (do
        found ← attempt (get_plan now j.project_id j.spec_id)
        elim found [
          | none ↦ pure tt
          | some plan ↦
              let (stuck_id, marked) = mark_next "stuck" plan in
              if stuck_id == "" then pure tt else do
                ignore (put_plan now j.project_id j.spec_id marked)
                prog ← progress_or_none now j.project_id j.spec_id
                ignore (put_progress now j.project_id j.spec_id (stuck_progress stuck_id prog))
                put_status now j.project_id j.spec_id j.run_id "stuck"
                ignore (
                    append_spec_log now j.project_id j.spec_id "implementation" (
                      "[" <> j.run_id <> "] job cancelled — marked subtask " <> stuck_id
                      <> " stuck\n"))
        ])
      else pure tt
