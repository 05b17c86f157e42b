-- ===== src/Runner/Planning.antt =====
-- `builtinPlanning` of job_runner.go: the specification and the plan that a task starts with.
pub mod Laws
pub mod Planned
use opm_api.Prelude.{
  ℕ, ◌+◌, String, Bool, true, false, not, ◌&&◌, Option, none, some, List, [], ◌∷◌, ◌++◌, ◌<>◌, ◌==◌,
  Result, ok, err, is_empty, length, nz, show, if◌then◌else◌,
}
use opm_api.Models.{Time, Task, PlanSubtask, PlanPhase, ImplementationPlan, TaskProgress, Job}
use opm_api.Plan.{count_plan_subtasks, pct}
use opm_api.World.{Op, pure, ignore, try, ◌>>=◌, ◌>>◌}
use opm_api.Store.Tasks.{
  get_task, put_spec_markdown, put_plan, put_progress, append_spec_log, move_task,
}
use opm_api.Runner.{Outcome, done_with, failed_with, plan_or_none, or_fail}

-- The text of spec.md.
unfoldable pub spec_text : Job → Task → String
spec_text j task =
    "# "
    <> task.title
    <> "\n\n## Summary\n\n"
    <> nz task.description "_No description provided._"
    <> "\n\n## Acceptance criteria\n\n- [ ] Core behavior works as described\n- [ ] Tests or verification steps documented\n- [ ] No regressions in related flows\n\n## Notes\n\nGenerated by OPM builtin planner ("
    <> j.run_id
    <> ").\n"

abbrev pub plan_step : String → String → String → String → PlanSubtask
plan_step id description status verification = record {
  id = id;
  description = description;
  status = status;
  service = "";
  files_to_modify = [];
  verification = verification;
}

abbrev pub plan_phase : ℕ → String → String → List ℕ → List PlanSubtask → PlanPhase
plan_phase number name type depends_on subtasks = record {
  phase = number;
  name = name;
  type = type;
  parallel_safe = false;
  depends_on = depends_on;
  subtasks = subtasks;
}

unfoldable pub default_phases : Task → List PlanPhase
default_phases task =
    plan_phase 1 "Design" "planning" []
      (plan_step "1-0" "Confirm scope and acceptance criteria" "completed" "spec.md reviewed" ∷ [])
    ∷ plan_phase 2 "Implement" "coding" (1 ∷ []) (
        plan_step "2-0" ("Implement core change for: " <> task.title) "pending"
          "manual or automated check"
        ∷ plan_step "2-1" "Add or update tests / verification notes" "pending"
            "tests pass or checklist done"
        ∷ [])
    ∷ plan_phase 3 "Review" "review" (2 ∷ [])
        (plan_step "3-0" "Self-review against acceptance criteria" "pending" "checklist green" ∷ [])
    ∷ []

unfoldable pub default_plan : Task → ImplementationPlan
unfolding default_phases
default_plan task = record {
  feature = task.title;
  workflow_type = "feature";
  services_involved = "opm-api" ∷ [];
  spec_file = "spec.md";
  status = "ready";
  plan_status = "ready";
  final_acceptance = "Behavior matches spec summary" ∷ "Verification steps completed" ∷ [];
  phases = default_phases task;
}

-- The plan with one more phase.
unfoldable pub followed_up : ImplementationPlan → ImplementationPlan
followed_up plan =
    let next = length plan.phases + 1 in
    record plan {
      phases =
          plan.phases
          ++ plan_phase next "Follow-up" "coding" []
              (plan_step (show next <> "-0") "Address follow-up request" "pending" "" ∷ [])
            ∷ [];
      plan_status = "ready";
      status = "ready";
    }

module _ (now : Time) (j : Job) where
  -- The plan that is written.
  unfoldable pub chosen_plan : Task → Op ImplementationPlan
  unfolding default_plan followed_up
  chosen_plan task =
      if j.action == "run-followup-planning"
      then (do
        existing ← plan_or_none now j.project_id j.spec_id
        pure (if is_empty existing.phases then default_plan task else followed_up existing))
      else pure (default_plan task)

  unfoldable pub planned_progress : ImplementationPlan → TaskProgress
  planned_progress plan =
      let (total, done) = count_plan_subtasks plan in
      record {
        is_running = false;
        paused = false;
        action = j.action;
        started_at = none;
        completed_at = some now;
        progress = pct done total;
        subtask_completed = done;
        subtask_total = total;
        current_phase_name = "Design";
        run_id = j.run_id;
        stuck_subtask_id = "";
      }

  abbrev pub planned_column : Task → String
  planned_column task = if task.require_review_before_coding then "human_review" else "queue"

  abbrev pub planned_message : Task → String
  planned_message task =
      if task.require_review_before_coding
      then "Planning complete (builtin): wrote spec.md + implementation plan; moved to human_review (require review before coding)."
      else "Planning complete (builtin): wrote spec.md + implementation plan; moved to queue."

  abbrev pub planned_line : ImplementationPlan → String
  planned_line plan =
      "["
      <> j.run_id
      <> "] builtin planning wrote spec.md + plan ("
      <> show (count_plan_subtasks plan).0
      <> " subtasks)\n"

  -- What follows the writing of the specification.
  unfoldable pub store_plan : Task → ImplementationPlan → Op Outcome
  store_plan task plan = do
    r ← try (put_plan now j.project_id j.spec_id plan)
    or_fail "Failed to write implementation_plan.json" r do
      ignore (put_progress now j.project_id j.spec_id (planned_progress plan))
      ignore (append_spec_log now j.project_id j.spec_id "planning" (planned_line plan))
      moved ← try (move_task now j.project_id j.spec_id (planned_column task))
      elim moved [
        | err e ↦ failed_with "Plan written but move failed" e
        | ok _ ↦ done_with (planned_message task)
      ]

  unfoldable pub builtin_planning : Op Outcome
  builtin_planning =
      if j.spec_id == "" then failed_with "run-planning requires specId" "specId required" else do
        found ← try (get_task now j.project_id j.spec_id)
        elim found [
          | err e ↦ failed_with "Task not found" e
          | ok task ↦ do
            r ← try (put_spec_markdown now j.project_id j.spec_id (spec_text j task))
            or_fail "Failed to write spec.md" r do plan ← chosen_plan task; store_plan task plan
        ]
