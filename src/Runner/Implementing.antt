-- ===== src/Runner/Implementing.antt =====
-- `builtinImplementationOpts` of job_runner.go: one implementation step. `rfc3339` is the library's
-- text for a time.
pub mod Laws
pub mod Step
pub mod Stepped
use opm_api.Prelude.{
  is_empty, ℕ, String, Bool, true, false, not, ◌&&◌, Option, none, some, List, [], ◌∷◌, Result, ok,
  err, ◌<>◌, ◌==◌, leb, show, if◌then◌else◌,
}
use opm_api.Models.{Time, Task, ImplementationPlan, TaskProgress, Job}
use opm_api.Plan.{count_plan_subtasks, mark_next, pct}
use opm_api.World.{File, Op, Done, pure, ignore, try, value_or, ◌>>=◌, ◌>>◌}
use opm_api.World.Layout.{with_project}
use opm_api.Store.Tasks.{
  read_spec, write_spec_file, get_task, put_plan, put_progress, append_spec_log, move_task,
}
use opm_api.Runner.{Outcome, done_with, failed_with, or_fail, plan_or_none, progress_or_none}

abbrev pub no_code_notice : String
no_code_notice =
    "No source changes were written: the builtin path tracks plan progress only. Configure a model runner (OPM_MODEL_API_KEY) for the runner to produce file changes to deliver."

abbrev pub started_plan : ImplementationPlan → ImplementationPlan
started_plan plan = record plan { status = "in_progress"; plan_status = "in_progress" }

-- `done >= total`.
abbrev pub all_done : ImplementationPlan → Bool
all_done plan = let (total, done) = count_plan_subtasks plan in leb total done

-- `taskApprovedForCoding`.
unfoldable pub task_approved_for_coding : Time → String → String → Op Bool
task_approved_for_coding now project_id spec_id =
    value_or false (with_project now project_id (λ p. read_spec (λ d. d.approved) p spec_id))

module _ (now : Time) (j : Job) where
  -- Whether the step waits for an approval.
  unfoldable pub coding_gate : Task → Op Bool
  coding_gate task =
      if task.require_review_before_coding
      then (do
        approved ← task_approved_for_coding now j.project_id j.spec_id
        pure (not approved && task.status == "human_review"))
      else pure false

  unfoldable pub step_progress : Bool → ImplementationPlan → TaskProgress → TaskProgress
  step_progress keep_running plan prev =
      let (total, done) = count_plan_subtasks plan in
      record {
        is_running = keep_running;
        paused = prev.paused;
        action = j.action;
        started_at =
            if keep_running
            then elim prev.started_at [ none ↦ some now | some t ↦ some t ]
            else none;
        completed_at = none;
        progress = pct done total;
        subtask_completed = done;
        subtask_total = total;
        current_phase_name = if all_done plan then "Complete" else "Implement";
        run_id = j.run_id;
        stuck_subtask_id = prev.stuck_subtask_id;
      }

  unfoldable pub step_message : String → ImplementationPlan → String
  step_message completed_id plan =
      let (total, done) = count_plan_subtasks plan in
      if all_done plan
      then "Implementation complete (builtin): finished subtask "
        <> completed_id
        <> "; all "
        <> show total
        <> " subtasks done; moved to review. "
        <> no_code_notice
      else "Implementation step (builtin): completed subtask "
        <> completed_id
        <> " ("
        <> show done
        <> "/"
        <> show total
        <> "). Re-enqueue to continue. "
        <> no_code_notice

  -- The move to `review` after the last subtask.
  unfoldable pub park : ImplementationPlan → Op Done
  park plan =
      if all_done plan then ignore (move_task now j.project_id j.spec_id "review") else pure tt

module _ (rfc3339 : Time → String) (now : Time) (j : Job) (keep_running : Bool) where
  -- What follows the marking of a subtask, for the plan that is stored.
  unfoldable pub store_step : String → ImplementationPlan → Op Outcome
  store_step completed_id plan = do
    r ← try (put_plan now j.project_id j.spec_id plan)
    or_fail "Failed to update plan" r do
      prev ← progress_or_none now j.project_id j.spec_id
      park now j plan
      ignore (put_progress now j.project_id j.spec_id (step_progress now j keep_running plan prev))
      let (total, done) = count_plan_subtasks plan
      ignore (
          append_spec_log now j.project_id j.spec_id "implementation" (
            "["
            <> j.run_id
            <> "] completed subtask "
            <> completed_id
            <> " ("
            <> show done
            <> "/"
            <> show total
            <> ")\n"))
      ignore (
          with_project now j.project_id λ p. write_spec_file File.notes p j.spec_id λ d. record d {
            notes = some (
                elim d.notes [ none ↦ "" | some n ↦ n ]
                <> "- "
                <> rfc3339 now
                <> ": completed subtask "
                <> completed_id
                <> " (builtin runner)\n");
          })
      done_with (step_message now j completed_id plan)

  unfoldable pub complete_next : ImplementationPlan → Op Outcome
  complete_next plan =
      let (completed_id, marked) = mark_next "completed" plan in
      if completed_id == ""
      then (do
        ignore (move_task now j.project_id j.spec_id "review")
        done_with "All subtasks already completed; moved to review.")
      else store_step completed_id (started_plan marked)

  unfoldable pub builtin_implementation_opts : Op Outcome
  builtin_implementation_opts =
      if j.spec_id == ""
      then failed_with "run-implementation requires specId" "specId required"
      else do
        found ← try (get_task now j.project_id j.spec_id)
        elim found [
          | err e ↦ failed_with "Task not found" e
          | ok task ↦ do
            blocked ← coding_gate now j task
            if blocked
                then failed_with "Blocked: approve-for-coding required before implementation"
                    "not approved"
                else do
                  plan ← plan_or_none now j.project_id j.spec_id
                  if is_empty plan.phases
                      then failed_with "No plan — run planning first" "plan missing"
                      else do
                        ignore (move_task now j.project_id j.spec_id "in_progress")
                        complete_next plan
        ]
