-- ===== src/Runner/Pipeline.antt =====
-- `runPipeline` of job_runner.go: one job that plans, drains the subtasks and parks the task.
pub mod Draining
pub mod Named
pub mod Complete
pub mod Parking
pub mod Unplanned
use opm_api.Prelude.{
  is_empty, join, ℕ, zero, suc, ◌+◌, String, Bool, true, false, not, ◌&&◌, ◌||◌, Option, none, some,
  List, [], ◌∷◌, ◌++◌, Result, ok, err, ◌<>◌, ◌==◌, ltb, leb, nat_eq, show, lookup, if◌then◌else◌,
}
use opm_api.Models.{Time, Task, ImplementationPlan, TaskProgress, Job}
use opm_api.Actions.{agent_key_for_action}
use opm_api.Plan.{count_plan_subtasks, count_pending_subtasks, first_pending_subtask_id, pct}
use opm_api.World.{Op, Done, pure, ignore, try, attempt, ◌>>=◌, ◌>>◌}
use opm_api.Store.Tasks.{
  get_task, get_progress, put_progress, append_spec_log, move_task, approve_for_coding,
}
use opm_api.Store.Jobs.{get_job}
use opm_api.Runner.{Outcome, plan_or_none, progress_or_none}
use opm_api.Runner.Implementing.{coding_gate, builtin_implementation_opts}

-- The steps that the pipeline calls, each with whether a container was spawned: planning,
-- the renewal of the workspace after it, and one implementation step.
pub record PipelineSteps : Type 0 where
  pub planning : Job → Op (Outcome × Bool)
  pub renew_workspace : Op Done
  pub implementation : Job → Op (Outcome × Bool)

unfoldable pub pipeline_step_job : Job → String → Job
pipeline_step_job parent action = record parent {
  action = action;
  agent_key = agent_key_for_action action;
  resolved_agent_key = "";
  resolved_model = "";
  resolved_model_source = "";
  resolved_provider = "";
  resolved_key_scope = "";
}

unfoldable pub max_steps : ImplementationPlan → ℕ
max_steps plan =
    let wanted = count_pending_subtasks plan + 8 in
    let floored = if ltb wanted 16 then 16 else wanted in if ltb 500 floored then 500 else floored

-- The drain ended the pipeline, or left it to go on with its messages.
pub data Drained : Type 0 where
  stopped : Outcome → Bool → Drained
  drained : List String → Bool → Drained

abbrev pub stopped_by : String → List String → Bool → Drained
stopped_by why steps used =
    stopped
      (record {
        message = "Pipeline stopped: " <> why <> " Steps: " <> join " | " steps;
        error = some why;
      })
      used

abbrev pub is_cancelled : Option Job → Bool
is_cancelled none = false
is_cancelled (some job) = job.state == "cancelled"

module _ (now : Time) (j : Job) where
  -- `none` where the pipeline may go on.
  unfoldable pub pipeline_cancelled_or_paused : Op (Option String)
  pipeline_cancelled_or_paused = do
    cur ← attempt (get_job now j.project_id j.run_id)
    if is_cancelled cur then pure (some "job cancelled") else do
      prog ← attempt (get_progress now j.project_id j.spec_id)
      pure (elim prog [ none ↦ none | some g ↦ if g.paused then some "task paused" else none ])

  unfoldable pub pipeline_progress :
      String → String → Bool → ImplementationPlan → TaskProgress → TaskProgress
  pipeline_progress action phase running plan prev =
      let (total, done) = count_plan_subtasks plan in
      record {
        is_running = running;
        paused = prev.paused;
        action = action;
        started_at =
            if running then elim prev.started_at [ none ↦ some now | some t ↦ some t ] else none;
        completed_at = if running then none else some now;
        progress = pct done total;
        subtask_completed = done;
        subtask_total = total;
        current_phase_name = phase;
        run_id = j.run_id;
        stuck_subtask_id = prev.stuck_subtask_id;
      }

  unfoldable pub set_pipeline_progress : String → String → Bool → Op Done
  set_pipeline_progress action phase running = do
    plan ← plan_or_none now j.project_id j.spec_id
    prev ← progress_or_none now j.project_id j.spec_id
    ignore
        (put_progress now j.project_id j.spec_id (pipeline_progress action phase running plan prev))

  -- The deferred function.
  unfoldable pub settle_progress : Op Done
  settle_progress = do
    found ← attempt (get_progress now j.project_id j.spec_id)
    elim found [
      | none ↦ pure tt
      | some prog ↦
          if prog.is_running
          then ignore (
              put_progress now j.project_id j.spec_id
                (record prog { is_running = false; completed_at = some now }))
          else pure tt
    ]

  -- The loop that drains the subtasks, for a number of rounds.
  unfoldable pub drain : (Job → Op (Outcome × Bool)) → ℕ → List String → Bool → Op Drained
  drain implement zero steps used = pure (drained steps used)
  drain implement (suc n) steps used = do
    blocked ← pipeline_cancelled_or_paused
    elim blocked [
      | some why ↦ pure (stopped_by why steps used)
      | none ↦ do
        plan ← plan_or_none now j.project_id j.spec_id
        if first_pending_subtask_id plan == "" then pure (drained steps used) else do
          set_pipeline_progress "run-implementation" "Implement" true
          (o, spawned) ← implement (pipeline_step_job j "run-implementation")
          elim o.error [
            | some e ↦ pure (
                stopped
                  (record {
                    message = "Pipeline failed during implementation: " <> o.message;
                    error = some e;
                  })
                  (used || spawned))
            | none ↦ drain implement n (steps ++ o.message ∷ []) (used || spawned)
          ]
    ]

  -- The end of the pipeline, once every subtask is done.
  unfoldable pub finish : List String → Bool → Op (Outcome × Bool)
  finish steps used = do
    set_pipeline_progress "run-pipeline" "Review (human)" false
    r ← try (move_task now j.project_id j.spec_id "review")
    elim r [
      | err e ↦ pure (
        record {
          message = "Pipeline coding done but move to review failed: " <> e;
          error = some e;
        },
        used,
      )
      | ok _ ↦ do
        ignore (
            append_spec_log now j.project_id j.spec_id "implementation"
              ("[" <> j.run_id <> "] run-pipeline finished → review (human gate)\n"))
        set_pipeline_progress "run-pipeline" "Complete" false
        pure (
          record {
            message =
                "Pipeline complete: "
                <> join " → " (steps ++ "parked in review for human approve/deliver" ∷ []);
            error = none;
          },
          used,
        )
    ]

  -- What follows the drain.
  unfoldable pub after_drain : List String → Bool → Op (Outcome × Bool)
  after_drain steps used = do
    plan ← plan_or_none now j.project_id j.spec_id
    let pending = first_pending_subtask_id plan
    if not (pending == "")
        then (do
          let why = "Pipeline stopped: remaining pending subtask " <> pending <> " after drain"
          set_pipeline_progress "run-pipeline" "Incomplete" false
          pure (
            record { message = join " → " (steps ++ why ∷ []); error = some "incomplete drain" },
            used,
          ))
        else do
          blocked ← pipeline_cancelled_or_paused
          elim blocked [
            | some why ↦ pure (
              record {
                message = "Pipeline stopped: " <> why <> " Steps: " <> join " | " steps;
                error = some why;
              },
              used,
            )
            | none ↦ do
              last ← plan_or_none now j.project_id j.spec_id
              let (total, done) = count_plan_subtasks last
              if nat_eq total 0 || ltb done total
                  then (do
                    let why = "coding incomplete (" <> show done <> "/" <> show total <> ")"
                    set_pipeline_progress "run-pipeline" "Incomplete" false
                    ignore (
                        append_spec_log now j.project_id j.spec_id "implementation"
                          ("[" <> j.run_id <> "] run-pipeline incomplete: " <> why <> "\n"))
                    pure (
                      record {
                        message = "Pipeline stopped: " <> join " → " (steps ++ why ∷ []);
                        error = some why;
                      },
                      used,
                    ))
                  else finish steps used
          ]

  -- From the reading of the task to the end: the approval, the drain, and what follows it.
  unfoldable pub drain_task : (Job → Op (Outcome × Bool)) → List String → Bool → Op (Outcome × Bool)
  drain_task implement steps used = do
    plan ← plan_or_none now j.project_id j.spec_id
    out ← drain implement (max_steps plan) steps used
    elim out [ stopped o used' ↦ pure (o, used') | drained steps' used' ↦ after_drain steps' used' ]

  unfoldable pub approve_and_drain :
      (Job → Op (Outcome × Bool)) → List String → Bool → Op (Outcome × Bool)
  approve_and_drain implement steps used = do
    found ← try (get_task now j.project_id j.spec_id)
    elim found [
      | err e ↦ pure (record { message = "Task not found"; error = some e }, used)
      | ok task ↦ do
        gated ← coding_gate now j task
        if gated
            then (do
              r ← try (approve_for_coding now j.project_id j.spec_id)
              elim r [
                | err e ↦ pure (
                  record {
                    message = "Pipeline failed auto-approving for coding: " <> e;
                    error = some e;
                  },
                  used,
                )
                | ok _ ↦
                    drain_task implement (steps ++ "Auto-approved for coding (pipeline)" ∷ []) used
              ])
            else drain_task implement steps used
    ]

module _ (steps : PipelineSteps) (now : Time) (j : Job) where
  -- The planning of a task that has no plan.
  unfoldable pub plan_and_drain : Op (Outcome × Bool)
  plan_and_drain = do
    set_pipeline_progress now j "run-planning" "Planning" true
    (o, spawned) ← steps.planning (pipeline_step_job j "run-planning")
    elim o.error [
      | some e ↦ pure (
        record { message = "Pipeline failed during planning: " <> o.message; error = some e },
        spawned,
      )
      | none ↦ do
        blocked ← pipeline_cancelled_or_paused now j
        elim blocked [
          | some why ↦ pure (
            record {
              message = "Pipeline stopped: " <> why <> " Steps: " <> o.message;
              error = some why;
            },
            spawned,
          )
          | none ↦ do
            ignore steps.renew_workspace
            approve_and_drain now j steps.implementation (o.message ∷ []) spawned
        ]
    ]

  unfoldable pub run_pipeline : Op (Outcome × Bool)
  run_pipeline =
      if j.spec_id == ""
      then pure (
        record { message = "run-pipeline requires specId"; error = some "specId required" },
        false,
      )
      else do
        set_pipeline_progress now j "run-pipeline" "Pipeline" true
        plan ← plan_or_none now j.project_id j.spec_id
        out ←
            if is_empty plan.phases
            then plan_and_drain
            else approve_and_drain now j steps.implementation [] false
        settle_progress now j
        pure out
