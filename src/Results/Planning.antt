-- ===== src/Results/Planning.antt =====
-- `applyModelPlanning` of model_apply.go.
use opm_api.Prelude.{
  String, none, some, List, [], ◌∷◌, ◌<>◌, ◌==◌, ok, err, is_empty, nz, show, trim_space,
  truncate_runes, if◌then◌else◌,
}
use opm_api.Models.{Time, Task, PlanPhase, ImplementationPlan, Job}
use opm_api.Plan.{count_plan_subtasks}
use opm_api.World.{Op, Done, pure, ignore, try, ◌>>=◌, ◌>>◌}
use opm_api.Store.Tasks.{
  get_task, put_spec_markdown, put_plan, put_progress, append_spec_log, move_task,
}
use opm_api.Results.{RunnerResult}
use opm_api.Runner.{Outcome, done_with, failed_with, or_fail}
use opm_api.Runner.Planning.{plan_step, plan_phase, planned_progress, planned_column}

-- The text of spec.md where the result has none.
abbrev pub model_spec_text : Job → RunnerResult → Task → String
model_spec_text j rr task =
    "# "
    <> task.title
    <> "\n\n## Summary\n\n"
    <> nz task.description "_No description provided._"
    <> "\n\n## Notes\n\nGenerated by OPM model runner ("
    <> j.run_id
    <> ", model="
    <> nz rr.model "unknown"
    <> ").\n"
    <> (if rr.raw_excerpt == "" then "" else "\n## Model excerpt\n\n" <> rr.raw_excerpt <> "\n")

unfoldable pub chosen_spec : Job → RunnerResult → Task → String
unfolding trim_space
chosen_spec j rr task =
    let own = trim_space rr.spec_markdown in if own == "" then model_spec_text j rr task else own

abbrev pub model_phases : Task → List PlanPhase
model_phases task =
    plan_phase 1 "Design" "planning" [] (plan_step "1-0" "Confirm scope" "completed" "spec.md" ∷ [])
    ∷ plan_phase 2 "Implement" "coding" (1 ∷ [])
        (plan_step "2-0" ("Implement: " <> task.title) "pending" "" ∷ [])
    ∷ plan_phase 3 "Review" "review" (2 ∷ []) (plan_step "3-0" "Self-review" "pending" "" ∷ [])
    ∷ []

unfoldable pub model_plan : Task → ImplementationPlan
model_plan task = record {
  feature = task.title;
  workflow_type = "feature";
  services_involved = "opm-api" ∷ [];
  spec_file = "spec.md";
  status = "ready";
  plan_status = "ready";
  final_acceptance = "Behavior matches spec summary" ∷ [];
  phases = model_phases task;
}

abbrev or_else : String → String → String
or_else s d = if s == "" then d else s

-- The plan of the result where it has phases, with what is blank filled in.
unfoldable pub told_plan : RunnerResult → Task → ImplementationPlan
unfolding model_plan
told_plan rr task =
    let plan : ImplementationPlan = elim rr.plan [
      | none ↦ model_plan task
      | some plan ↦ if is_empty plan.phases then model_plan task else plan
    ] in
    record plan {
      feature = or_else plan.feature task.title;
      status = or_else plan.status "ready";
      plan_status = or_else plan.plan_status "ready";
    }

module _ (now : Time) (j : Job) where
  abbrev pub model_planned_line : RunnerResult → ImplementationPlan → String
  model_planned_line rr plan =
      "["
      <> j.run_id
      <> "] model planning ("
      <> nz rr.model "?"
      <> ") wrote spec.md + plan ("
      <> show (count_plan_subtasks plan).0
      <> " subtasks)\n"

  unfoldable pub log_excerpt : RunnerResult → Op Done
  log_excerpt rr =
      if rr.raw_excerpt == ""
      then pure tt
      else ignore (
          append_spec_log now j.project_id j.spec_id "planning"
            ("[" <> j.run_id <> "] model excerpt: " <> truncate_runes rr.raw_excerpt 400 <> "\n"))

  -- What follows the writing of the specification. The progress is the one that the builtin planning
  -- writes too.
  unfoldable pub store_told_plan : RunnerResult → Task → ImplementationPlan → Op Outcome
  unfolding log_excerpt
  store_told_plan rr task plan = do
    r ← try (put_plan now j.project_id j.spec_id plan)
    or_fail "Failed to write implementation_plan.json" r do
      ignore (put_progress now j.project_id j.spec_id (planned_progress now j plan))
      ignore (append_spec_log now j.project_id j.spec_id "planning" (model_planned_line rr plan))
      log_excerpt rr
      moved ← try (move_task now j.project_id j.spec_id (planned_column now j task))
      elim moved [
        | err e ↦ failed_with "Plan written but move failed" e
        | ok _ ↦ done_with (
            "Planning complete (model/"
            <> nz rr.model "model"
            <> "): wrote spec.md + plan; moved to "
            <> planned_column now j task
            <> ".")
      ]

  unfoldable pub apply_model_planning : RunnerResult → Op Outcome
  unfolding chosen_spec told_plan store_told_plan
  apply_model_planning rr =
      if j.spec_id == "" then failed_with "run-planning requires specId" "specId required" else do
        found ← try (get_task now j.project_id j.spec_id)
        elim found [
          | err e ↦ failed_with "Task not found" e
          | ok task ↦ do
            r ← try (put_spec_markdown now j.project_id j.spec_id (chosen_spec j rr task))
            or_fail "Failed to write spec.md" r (store_told_plan rr task (told_plan rr task))
        ]
