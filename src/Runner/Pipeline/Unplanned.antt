-- ===== src/Runner/Pipeline/Unplanned.antt =====
-- The pipeline on a task that has no plan yet: it plans, and then drains what it planned.
use opm_api.Prelude.{
  String, Bool, true, false, none, some, [], ◌∷◌, ◌==◌, ◌≡◌, refl, ap, ◌∙◌, arith, lookup, subst,
}
use opm_api.Models.{Time, Project, Task, Job}
use opm_api.Plan.{
  is_pending, is_done, count_subtasks, count_phases, count_plan_subtasks, count_pending_subtasks,
}
use opm_api.World.{World, pure}
use opm_api.Store.Running.{
  View, At, Leads, Leads-pure, Leads-ignore, Leads-ignore, Leads-value_or, Leads-bind, Leads-then,
  get_progress-Leads, put_progress-Leads,
}
use opm_api.Runner.{Outcome, no_plan, plan_or_none}
use opm_api.Runner.Implementing.Laws.{own}
use opm_api.Runner.Planning.{
  default_phases, default_plan, planned_progress, planned_message, builtin_planning,
}
use opm_api.Runner.Planning.Laws.{
  plan_of, plan_or_none-Leads, plan_for, Plans, builtin_planning-Plans,
}
use opm_api.Runner.Pipeline.{
  PipelineSteps, pipeline_step_job, is_cancelled, set_pipeline_progress, plan_and_drain,
  run_pipeline,
}
use opm_api.Runner.Pipeline.Named.{all_named, is_named}
use opm_api.Runner.Pipeline.Draining.{
  builtin_step, planning_step, CanDrain, told, not_blocked-Leads,
}
use opm_api.Runner.Pipeline.Parking.{IsParked, Parks, approve_and_drain-Parks, settle-Leads}

-- The builtin steps, with no workspace to renew.
abbrev pub builtin_steps : (Time → String) → Time → PipelineSteps
builtin_steps rfc3339 now = record {
  planning = planning_step now;
  renew_workspace = pure tt;
  implementation = builtin_step rfc3339 now;
}

module _ (q : Project) (now : Time) (j : Job) where
  -- The progress is told, whatever plan is there.
  tell-Leads :
      (action phase : String) (running : Bool) {v : View} {w : World}
      → At (own q j) j.spec_id v w
      → Leads
          (own q j)
          j.spec_id
          (set_pipeline_progress now j action phase running)
          w
          tt
          (told q now j action phase running (plan_of v) v)
  unfolding set_pipeline_progress
  tell-Leads action phase running h =
      let p = own q j in
      let s = j.spec_id in
      Leads-bind p s _ _ (plan_or_none-Leads p s now h) λ u₁ h₁.
        Leads-bind p s _ _ (Leads-value_or p s _ _ (get_progress-Leads p s now h₁))
          λ u₂ h₂. Leads-ignore p s _ (put_progress-Leads p s now h₂ _)

  -- The default plan can be drained: three of its four subtasks are pending.
  planned-CanDrain :
      {v v' : View} {t : Task}
      → Plans q now (pipeline_step_job j "run-planning") t v v'
      → t.require_review_before_coding ≡ false
      → is_cancelled (lookup j.run_id v.runs) ≡ false
      → CanDrain j.run_id 3 v'
  unfolding pipeline_step_job plan_for is_named all_named default_plan default_phases
      count_pending_subtasks count_plan_subtasks count_phases count_subtasks is_pending is_done
      planned_progress
  planned-CanDrain {v} {v'} {t} planned open_gate live = record {
    task = _;
    has_task = planned.stored_task;
    not_gated = rw open_gate refl;
    plan = default_plan t;
    has_plan = planned.stored_plan;
    named = refl;
    pending = refl;
    rest_done = refl;
    some_work = omega arith;
    not_paused = rw planned.stored_progress refl;
    not_cancelled = ap (λ r. is_cancelled (lookup j.run_id r)) planned.same_runs ∙ live;
  }

module _ (q : Project) (rfc3339 : Time → String) (now : Time) (j : Job)
    (has_spec : (j.spec_id == "") ≡ false) where
  plan_and_drain-Parks :
      {v : View} {w : World} {t : Task}
      → At (own q j) j.spec_id v w
      → v.spec.task ≡ some t
      → t.require_review_before_coding ≡ false
      → is_cancelled (lookup j.run_id v.runs) ≡ false
      → Parks q now j (plan_and_drain (builtin_steps rfc3339 now) now j) w
  unfolding plan_and_drain planning_step pipeline_step_job
  plan_and_drain-Parks {v} {w} {t} h e open_gate live =
      let p = own q j in
      let s = j.spec_id in
      let job = pipeline_step_job j "run-planning" in
      let l₁ = tell-Leads q now j "run-planning" "Planning" true h in
      let (v₂, planned, l₂) = builtin_planning-Plans q now job l₁.at has_spec e in
      let c = planned-CanDrain q now j planned open_gate live in
      let message = planned_message now job t in
      let l₃ : Leads p s (planning_step now job) l₁.after
          (record { message = message; error = none }, false) v₂ =
        Leads-then p s (builtin_planning now job) (λ o. pure (o, false)) l₂
          (Leads-pure p s l₂.at) in
      let l₄ = not_blocked-Leads q now j l₃.at c.not_cancelled c.not_paused in
      let l₅ = Leads-ignore p s (pure tt) (Leads-pure p s l₄.at) in
      let f =
        approve_and_drain-Parks q rfc3339 now j has_spec (message ∷ []) false (omega arith) l₅.at
          c in
      record {
        message = f.message;
        spawned = f.spawned;
        view = f.view;
        parked = f.parked;
        leads =
            Leads-then p s _ _ l₁
              (Leads-then p s _ _ l₃ (Leads-then p s _ _ l₄ (Leads-then p s _ _ l₅ f.leads)));
      }

  -- In a ready project, the pipeline with the builtin steps on a task with no plan, which wants no
  -- review before coding and whose job is not cancelled: it plans, returns no error, and leaves every
  -- subtask done, the task in `review` and its progress not running.
  pub run_pipeline_unplanned-IsParked :
      {v : View} {w : World} {t : Task}
      → At (own q j) j.spec_id v w
      → v.spec.task ≡ some t
      → v.spec.plan ≡ none
      → t.require_review_before_coding ≡ false
      → is_cancelled (lookup j.run_id v.runs) ≡ false
      → (out : Outcome × Bool) × (v' : View) × (out.0.error ≡ none)
        × IsParked v'
        × Leads (own q j) j.spec_id (run_pipeline (builtin_steps rfc3339 now) now j) w out v'
  unfolding run_pipeline
  run_pipeline_unplanned-IsParked {v} {w} {t} h e bare open_gate live =
      let p = own q j in
      let s = j.spec_id in
      let l₁ = tell-Leads q now j "run-pipeline" "Pipeline" true h in
      let l₂ : Leads p s (plan_or_none now j.project_id s) l₁.after no_plan
          (told q now j "run-pipeline" "Pipeline" true (plan_of v) v) =
        subst
          (λ x.
            Leads p s (plan_or_none now j.project_id s) l₁.after x
              (told q now j "run-pipeline" "Pipeline" true (plan_of v) v))
          (ap (λ m. elim m [ none ↦ no_plan | some plan ↦ plan ]) bare)
          (plan_or_none-Leads p s now l₁.at) in
      let f = plan_and_drain-Parks l₂.at e open_gate live in
      let l₄ = settle-Leads q rfc3339 now j has_spec f.leads.at f.parked.not_running in
      (
        (record { message = f.message; error = none }, f.spawned),
        f.view,
        refl,
        f.parked,
        rw has_spec (
            Leads-then p s _ _ l₁ (
              Leads-then p s _ _ l₂
                (Leads-then p s _ _ f.leads (Leads-then p s _ _ l₄ (Leads-pure p s l₄.at))))),
      )
