-- ===== src/Runner/Skipping.antt =====
-- `builtinSkipToPhase` of job_runner.go.
use opm_api.Prelude.{is_empty, String, false, ◌<>◌, ◌==◌, nat_eq, nz, show, if◌then◌else◌}
use opm_api.Models.{Time, ImplementationPlan, TaskProgress, Job}
use opm_api.Plan.{count_plan_subtasks, Skip, skip_phases, skip_column, pct}
use opm_api.World.{Op, ignore, try, ◌>>=◌, ◌>>◌}
use opm_api.Store.Tasks.{put_plan, put_progress, append_spec_log, move_task}
use opm_api.Runner.{
  Outcome, done_with, failed_with, or_fail, plan_or_none, progress_or_none, put_status,
}
use opm_api.Runner.Implementing.{started_plan}

module _ (now : Time) (j : Job) where
  abbrev pub skipped_progress : String → ImplementationPlan → TaskProgress → TaskProgress
  skipped_progress target_name plan prog =
      let (total, done) = count_plan_subtasks plan in
      record prog {
        paused = false;
        is_running = false;
        action = "skip-to-phase";
        stuck_subtask_id = "";
        progress = pct done total;
        subtask_completed = done;
        subtask_total = total;
        current_phase_name = nz target_name ("Phase " <> show j.target_phase);
        run_id = j.run_id;
      }

  -- What follows a skip whose target was found.
  unfoldable pub store_skip : Skip → ImplementationPlan → Op Outcome
  store_skip s plan = do
    r ← try (put_plan now j.project_id j.spec_id plan)
    or_fail "Failed to update plan after skip" r do
      prog ← progress_or_none now j.project_id j.spec_id
      ignore (put_progress now j.project_id j.spec_id (skipped_progress s.target_name plan prog))
      let to = skip_column j.target_phase plan.phases "in_progress"
      ignore (move_task now j.project_id j.spec_id to)
      ignore (
          append_spec_log now j.project_id j.spec_id "implementation" (
            "["
            <> j.run_id
            <> "] skip-to-phase → "
            <> show j.target_phase
            <> " ("
            <> s.target_name
            <> "); completed "
            <> show s.skipped
            <> " prior subtask(s)\n"))
      put_status now j.project_id j.spec_id j.run_id "idle"
      done_with (
          "Skip-to-phase (builtin): jumped to phase "
          <> show j.target_phase
          <> " ("
          <> s.target_name
          <> "); marked "
          <> show s.skipped
          <> " earlier subtask(s) complete; status "
          <> to
          <> ".")

  unfoldable pub builtin_skip_to_phase : Op Outcome
  builtin_skip_to_phase =
      if j.spec_id == ""
      then failed_with "skip-to-phase requires specId" "specId required"
      else if nat_eq j.target_phase 0
      then failed_with "skip-to-phase requires targetPhase >= 1" "targetPhase required"
      else do
        plan ← plan_or_none now j.project_id j.spec_id
        if is_empty plan.phases
            then failed_with "No plan — run planning first" "plan missing"
            else (let (s, phases) =
                  skip_phases j.target_phase 0 plan.phases
                    (record { found = false; target_name = ""; skipped = 0 }) in
                if s.found
                then store_skip s (started_plan (record plan { phases = phases }))
                else failed_with ("No plan phase " <> show j.target_phase) "unknown targetPhase")
