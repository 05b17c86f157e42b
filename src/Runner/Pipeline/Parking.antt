-- ===== src/Runner/Pipeline/Parking.antt =====
-- The end of the pipeline, and the whole of it, in a ready project.
use opm_api.Prelude.{
  ℕ, ◌+◌, ◌≤◌, ◌<◌, String, Bool, true, false, ◌||◌, none, some, List, [], ◌≡◌, refl, ap, sym,
  subst, ◌∙◌, arith, ◌==◌, ◌<>◌, ltb, nat_eq,
}
use opm_api.Models.{Time, Project, Task, ImplementationPlan, Job}
use opm_api.Plan.{count_plan_subtasks, count_pending_subtasks, first_pending_subtask_id}
use opm_api.World.{World, Op}
use opm_api.Store.Running.{
  View, progress_of, At, Leads, Leads-pure, Leads-ignore, Leads-value_or, Leads-try, Leads-attempt,
  Leads-bind, Leads-then, get_plan-Leads, get_progress-Leads, append_spec_log-Leads,
}
use opm_api.Store.Running.Moves.{get_task-Leads, move_task-Leads}
use opm_api.Runner.{Outcome, no_plan}
use opm_api.Runner.Implementing.{coding_gate}
use opm_api.Runner.Implementing.Laws.{own, review_column}
use opm_api.Runner.Implementing.Step.{coding_gate-Leads}
use opm_api.Runner.Pipeline.{
  PipelineSteps, max_steps, pipeline_progress, settle_progress, finish, after_drain, drain_task,
  approve_and_drain, run_pipeline,
}
use opm_api.Runner.Pipeline.Named.{first_pending_subtask_id_lem}
use opm_api.Runner.Pipeline.Draining.{
  builtin_step, CanDrain, some_phases, not_blocked-Leads, set_pipeline_progress-Leads,
}
use opm_api.Runner.Pipeline.Complete.{drain-Leads, told-CanDrain}

-- The task stands in `review`, every subtask of its plan is done, and no automation runs on it.
pub record IsParked (v : View) : Type 0 where
  pub task : Task
  pub has_task : v.spec.task ≡ some task
  pub in_review : task.status ≡ "review"
  pub plan : ImplementationPlan
  pub has_plan : v.spec.plan ≡ some plan
  pub all_done : (count_plan_subtasks plan).0 ≡ (count_plan_subtasks plan).1
  pub not_running : (progress_of v.spec).is_running ≡ false

max_steps_lem :
    (plan : ImplementationPlan)
    → count_pending_subtasks plan ≤ 500
    → count_pending_subtasks plan ≤ max_steps plan
unfolding max_steps
max_steps_lem plan h = ground arith

all_counted :
    (total done : ℕ) → total ≡ 0 + done → 0 < total → (nat_eq total 0 || ltb done total) ≡ false
all_counted total done h k = ground arith

module _ (q : Project) (now : Time) (j : Job) where
  -- An outcome without an error, and the view after it.
  pub record Parks (m : Op (Outcome × Bool)) (w : World) : Type 0 where
    pub message : String
    pub spawned : Bool
    pub view : View
    pub parked : IsParked view
    pub leads :
        Leads (own q j) j.spec_id m w (record { message = message; error = none }, spawned) view

  finish-Parks :
      (steps : List String) (used : Bool) {v : View} {w : World}
      → At (own q j) j.spec_id v w
      → CanDrain j.run_id 0 v
      → Parks (finish now j steps used) w
  unfolding finish pipeline_progress
  finish-Parks steps used h c =
      let p = own q j in
      let s = j.spec_id in
      let l₁ =
        set_pipeline_progress-Leads q now j "run-pipeline" "Review (human)" false h c.has_plan in
      let l₂ =
        Leads-try p s _ (move_task-Leads p s now l₁.at "review" review_column.0 c.has_task) in
      let l₃ = Leads-ignore p s _ (
        append_spec_log-Leads p s now l₂.at "implementation"
          ("[" <> j.run_id <> "] run-pipeline finished → review (human gate)\n")) in
      let l₄ =
        set_pipeline_progress-Leads q now j "run-pipeline" "Complete" false l₃.at c.has_plan in
      record {
        message = _;
        spawned = used;
        view = _;
        parked = record {
          task = _;
          has_task = refl;
          in_review = review_column.1;
          plan = c.plan;
          has_plan = c.has_plan;
          all_done = c.rest_done ∙ (omega arith);
          not_running = refl;
        };
        leads = Leads-then p s _ _ l₁ (
            Leads-then p s _ _ l₂
              (Leads-then p s _ _ l₃ (Leads-then p s _ _ l₄ (Leads-pure p s l₄.at))));
      }

  after_drain-Parks :
      (steps : List String) (used : Bool) {v : View} {w : World}
      → At (own q j) j.spec_id v w
      → CanDrain j.run_id 0 v
      → Parks (after_drain now j steps used) w
  unfolding after_drain
  after_drain-Parks steps used h c =
      let p = own q j in
      let s = j.spec_id in
      let l₁ = Leads-value_or p s no_plan _ (get_plan-Leads p s now h c.has_plan) in
      let l₂ = not_blocked-Leads q now j l₁.at c.not_cancelled c.not_paused in
      let l₃ = Leads-value_or p s no_plan _ (get_plan-Leads p s now l₂.at c.has_plan) in
      let f = finish-Parks steps used l₃.at c in
      let none_left : (first_pending_subtask_id c.plan == "") ≡ true =
        first_pending_subtask_id_lem c.plan c.named ∙ ap (λ n. nat_eq n 0) c.pending in
      record {
        message = f.message;
        spawned = f.spawned;
        view = f.view;
        parked = f.parked;
        leads = Leads-then p s _ _ l₁ (
            rw none_left (
              Leads-then p s _ _ l₂
                (Leads-then p s _ _ l₃ (rw (all_counted _ _ c.rest_done c.some_work) f.leads))));
      }

module _ (q : Project) (rfc3339 : Time → String) (now : Time) (j : Job)
    (has_spec : (j.spec_id == "") ≡ false) where
  drain_task-Parks :
      {k : ℕ} (steps : List String) (used : Bool) {v : View} {w : World}
      → k ≤ 500
      → At (own q j) j.spec_id v w
      → CanDrain j.run_id k v
      → Parks q now j (drain_task now j (builtin_step rfc3339 now) steps used) w
  unfolding drain_task
  drain_task-Parks {k} steps used few h c =
      let p = own q j in
      let s = j.spec_id in
      let l₁ = Leads-value_or p s no_plan _ (get_plan-Leads p s now h c.has_plan) in
      let enough : k ≤ max_steps c.plan =
        subst (λ n. n ≤ max_steps c.plan) c.pending
          (max_steps_lem c.plan (subst (λ n. n ≤ 500) (sym c.pending) few)) in
      let (ms, used', v', c', l₂) =
        drain-Leads q rfc3339 now j has_spec (max_steps c.plan) k steps used enough l₁.at c in
      let f = after_drain-Parks q now j ms used' l₂.at c' in
      record {
        message = f.message;
        spawned = f.spawned;
        view = f.view;
        parked = f.parked;
        leads = Leads-then p s _ _ l₁ (Leads-then p s _ _ l₂ f.leads);
      }

  pub approve_and_drain-Parks :
      {k : ℕ} (steps : List String) (used : Bool) {v : View} {w : World}
      → k ≤ 500
      → At (own q j) j.spec_id v w
      → CanDrain j.run_id k v
      → Parks q now j (approve_and_drain now j (builtin_step rfc3339 now) steps used) w
  unfolding approve_and_drain
  approve_and_drain-Parks {k} steps used {v} {w} few h c =
      let p = own q j in
      let s = j.spec_id in
      let l₁ = Leads-try p s _ (get_task-Leads p s now h c.has_task) in
      let l₂ =
        subst (λ b. Leads p s (coding_gate now j c.task) l₁.after b v) c.not_gated
          (coding_gate-Leads q now j c.task l₁.at) in
      let f = drain_task-Parks steps used few l₂.at c in
      record {
        message = f.message;
        spawned = f.spawned;
        view = f.view;
        parked = f.parked;
        leads = Leads-then p s _ _ l₁ (Leads-then p s _ _ l₂ f.leads);
      }

  pub settle-Leads :
      {v : View} {w : World}
      → At (own q j) j.spec_id v w
      → (progress_of v.spec).is_running ≡ false
      → Leads (own q j) j.spec_id (settle_progress now j) w tt v
  unfolding settle_progress
  settle-Leads h r =
      let p = own q j in
      let s = j.spec_id in
      Leads-bind p s _ _ (Leads-attempt p s _ (get_progress-Leads p s now h))
        λ u k. rw r (Leads-pure p s k)

  -- In a ready project, for a task whose subtasks all have ids and are pending or done, with at least
  -- one of them and at most 500 pending, that waits for no approval, is not paused and whose job is
  -- not cancelled: the pipeline with the builtin implementation step returns no error, and leaves
  -- every subtask done, the task in `review` and its progress not running.
  pub run_pipeline-IsParked :
      (steps : PipelineSteps) {k : ℕ} {v : View} {w : World}
      → steps.implementation ≡ builtin_step rfc3339 now
      → k ≤ 500
      → At (own q j) j.spec_id v w
      → CanDrain j.run_id k v
      → (out : Outcome × Bool) × (v' : View) × (out.0.error ≡ none)
        × IsParked v'
        × Leads (own q j) j.spec_id (run_pipeline steps now j) w out v'
  unfolding run_pipeline
  run_pipeline-IsParked steps {k} {v} {w} impl few h c =
      let p = own q j in
      let s = j.spec_id in
      let l₁ = set_pipeline_progress-Leads q now j "run-pipeline" "Pipeline" true h c.has_plan in
      let c₁ = told-CanDrain q rfc3339 now j has_spec "run-pipeline" "Pipeline" true c in
      let l₂ = Leads-value_or p s no_plan _ (get_plan-Leads p s now l₁.at c.has_plan) in
      let f = approve_and_drain-Parks [] false few l₂.at c₁ in
      let l₄ = settle-Leads f.leads.at f.parked.not_running in
      (
        (record { message = f.message; error = none }, f.spawned),
        f.view,
        refl,
        f.parked,
        rw has_spec (
            rw impl (
              Leads-then p s _ _ l₁ (
                Leads-then p s _ _ l₂ (
                  rw (some_phases c.plan c.some_work)
                    (Leads-then p s _ _ f.leads (Leads-then p s _ _ l₄ (Leads-pure p s l₄.at))))))),
      )
