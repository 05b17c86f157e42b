-- ===== src/Runner/Implementing/Stepped.antt =====
-- What a whole implementation step leaves, told without the code's plan and progress.
use opm_api.Prelude.{
  String, Bool, false, none, some, ◌≡◌, refl, ap, sym, ◌∙◌, ◌==◌, is_empty, leb, if◌then◌else◌,
  Bool-cases, inl, inr,
}
use opm_api.Models.{Time, Project, Task, PlanSubtask, ImplementationPlan, TaskProgress, Job}
use opm_api.Plan.{count_plan_subtasks, mark_next, first_pending_subtask_id}
use opm_api.Plan.Counts.{first_pending-mark_next}
use opm_api.Plan.Marking.{MarksFirst, mark_next-MarksFirst}
use opm_api.World.{World}
use opm_api.Store.Running.{View, progress_of, At, Leads}
use opm_api.Runner.Implementing.{started_plan, all_done, step_progress, builtin_implementation_opts}
use opm_api.Runner.Implementing.Laws.{own}
use opm_api.Runner.Implementing.Step.{is_gated, builtin_implementation_opts-StepsTo}

module _ (q : Project) (now : Time) (j : Job) where
  -- What a step leaves of the task `t` with the plan `plan`.
  pub record IsStepped (keep_running : Bool) (plan : ImplementationPlan) (t : Task) (v v' : View)
      : Type 0 where
    pub marked : ImplementationPlan
    pub stored_plan : v'.spec.plan ≡ some marked
    pub step : PlanSubtask
    pub named : (step.id == "") ≡ false
    pub marks : MarksFirst "completed" step plan.phases marked.phases
    pub started : (marked.status ≡ "in_progress") × (marked.plan_status ≡ "in_progress")
    pub progress : TaskProgress
    pub stored_progress : v'.spec.progress ≡ some progress
    pub same_pause : progress.paused ≡ (progress_of v.spec).paused
    pub running : progress.is_running ≡ keep_running
    pub counted :
        (progress.subtask_total ≡ (count_plan_subtasks marked).0)
        × (progress.subtask_completed ≡ (count_plan_subtasks marked).1)
    pub stored_task :
        v'.spec.task
        ≡ some (record t {
          status =
              if leb (count_plan_subtasks marked).0 (count_plan_subtasks marked).1
              then "review"
              else "in_progress";
          updated_at = now;
        })
    pub same_approved : v'.spec.approved ≡ v.spec.approved
    pub same_runs : v'.runs ≡ v.runs

  -- In a ready project whose task is not waiting for an approval, and whose plan has a pending
  -- subtask with an id, an implementation step succeeds. In the stored plan the first pending subtask
  -- is completed and all else of the phases is as it was; plan and plan status are in_progress. The
  -- stored progress counts the subtasks of that plan and keeps the pause that was stored. The task is
  -- left in `in_progress`, or in `review` exactly when as many subtasks are done as there are.
  pub builtin_implementation_opts-IsStepped :
      (rfc3339 : Time → String) (keep_running : Bool) {v : View} {w : World} {t : Task}
      {plan : ImplementationPlan}
      → At (own q j) j.spec_id v w
      → (j.spec_id == "") ≡ false
      → v.spec.task ≡ some t
      → is_gated t v.spec ≡ false
      → v.spec.plan ≡ some plan
      → is_empty plan.phases ≡ false
      → (first_pending_subtask_id plan == "") ≡ false
      → (message : String) × (v' : View) × IsStepped keep_running plan t v v'
        × Leads
            (own q j)
            j.spec_id
            (builtin_implementation_opts rfc3339 now j keep_running)
            w
            (record { message = message; error = none })
            v'
  unfolding step_progress
  builtin_implementation_opts-IsStepped rfc3339 keep_running {v} {w} {t} {plan} h n e g pe ne f =
      let (v', s, l) =
        builtin_implementation_opts-StepsTo q now j rfc3339 keep_running h n e g pe ne f in
      let (st, same, m) = mark_next-MarksFirst "completed" plan f in
      let (id, marked) = mark_next "completed" plan in
      (
        _,
        v',
        record {
          marked = started_plan marked;
          stored_plan = s.stored_plan;
          step = st;
          named = ap (λ i. i == "") (same ∙ sym (first_pending-mark_next "completed" plan)) ∙ f;
          marks = m;
          started = (refl, refl);
          progress = step_progress now j keep_running (started_plan marked) (progress_of v.spec);
          stored_progress = s.stored_progress;
          same_pause = refl;
          running = refl;
          counted = (refl, refl);
          stored_task = s.stored_task ∙ (elim (Bool-cases (all_done (started_plan marked))) [
            | inl k ↦ rw k refl
            | inr k ↦ rw k refl
          ]);
          same_approved = s.same_approved;
          same_runs = s.same_runs;
        },
        l,
      )
