-- ===== src/Runner/Pipeline/Draining.antt =====
-- The drain of the pipeline with the builtin steps, in a ready project.
use opm_api.Prelude.{
  is_empty, ℕ, suc, ◌+◌, ◌<◌, String, Bool, true, false, Option, none, some, List, [], ◌∷◌, ◌≡◌,
  refl, ap, ◌∙◌, arith, ◌==◌, lookup, Option-cases, Bool-cases, inl, inr,
}
use opm_api.Models.{
  Time, Project, Task, PlanPhase, ImplementationPlan, TaskProgress, no_progress, Job,
}
use opm_api.Plan.{
  count_plan_subtasks, count_pending_subtasks, mark_next, count_phases, is_pending, is_done,
}
use opm_api.Plan.Counts.{mark_next_counts, IsMarked}
use opm_api.World.{SpecDir, World, Op, pure, attempt, ◌>>=◌}
use opm_api.World.Ready.{with_project-ready}
use opm_api.Store.Running.{
  View, progress_of, At, Leads, Leads-pure, Leads-ignore, Leads-value_or, Leads-attempt, Leads-bind,
  get_plan-Leads, get_progress-Leads, put_progress-Leads,
}
use opm_api.Store.Tasks.{read}
use opm_api.Store.Jobs.{get_job}
use opm_api.Runner.Planning.{builtin_planning}
use opm_api.Runner.{Outcome}
use opm_api.Runner.Implementing.{started_plan, all_done, step_progress, builtin_implementation_opts}
use opm_api.Runner.Implementing.Laws.{own, task_after}
use opm_api.Runner.Implementing.Step.{is_gated, StepsTo}
use opm_api.Runner.Pipeline.{
  is_cancelled, pipeline_cancelled_or_paused, pipeline_progress, set_pipeline_progress,
}
use opm_api.Runner.Pipeline.Named.{is_named, mark_next-named}

-- The builtin implementation step, which spawns no container.
unfoldable pub builtin_step : (Time → String) → Time → Job → Op (Outcome × Bool)
builtin_step rfc3339 now j = builtin_implementation_opts rfc3339 now j true >>= λ o. pure (o, false)

-- The builtin planning step.
unfoldable pub planning_step : Time → Job → Op (Outcome × Bool)
planning_step now j = builtin_planning now j >>= λ o. pure (o, false)

module _ (q : Project) (now : Time) (j : Job) where
  attempt_job-Leads :
      {v : View} {w : World}
      → At (own q j) j.spec_id v w
      → Leads
          (own q j)
          j.spec_id
          (attempt (get_job now j.project_id j.run_id))
          w
          (lookup j.run_id v.runs)
          v
  unfolding attempt get_job read
  attempt_job-Leads {v} {w} h = record {
    after = w;
    runs_to =
        rw
          (
            with_project-ready {p = own q j} h.ready now (read (λ d. lookup j.run_id d.runs)),
            attempt,
          )
          (rw (h.same_runs, read)
            (elim (Option-cases (lookup j.run_id v.runs)) [ inl e ↦ rw e | inr (g, e) ↦ rw e ]));
    at = h;
  }

  pub not_blocked-Leads :
      {v : View} {w : World}
      → At (own q j) j.spec_id v w
      → is_cancelled (lookup j.run_id v.runs) ≡ false
      → (progress_of v.spec).paused ≡ false
      → Leads (own q j) j.spec_id (pipeline_cancelled_or_paused now j) w none v
  unfolding pipeline_cancelled_or_paused
  not_blocked-Leads h c u = Leads-bind (own q j) j.spec_id _ _ (attempt_job-Leads h) λ u₁ h₁. rw c (
      Leads-bind (own q j) j.spec_id _ _
        (Leads-attempt (own q j) j.spec_id _ (get_progress-Leads (own q j) j.spec_id now h₁))
        λ u₂ h₂. rw u (Leads-pure (own q j) j.spec_id h₂))

  -- The view with the progress that the pipeline tells.
  abbrev pub told : String → String → Bool → ImplementationPlan → View → View
  told action phase running plan v = record v {
    spec = record (v.spec) {
      progress = some (pipeline_progress now j action phase running plan (progress_of v.spec));
    };
  }

  pub set_pipeline_progress-Leads :
      (action phase : String) (running : Bool) {v : View} {w : World} {plan : ImplementationPlan}
      → At (own q j) j.spec_id v w
      → v.spec.plan ≡ some plan
      → Leads
          (own q j)
          j.spec_id
          (set_pipeline_progress now j action phase running)
          w
          tt
          (told action phase running plan v)
  unfolding set_pipeline_progress
  set_pipeline_progress-Leads action phase running h e =
      let p = own q j in
      let s = j.spec_id in
      Leads-bind p s _ _ (Leads-value_or p s _ _ (get_plan-Leads p s now h e)) λ u₁ h₁.
        Leads-bind p s _ _ (Leads-value_or p s _ _ (get_progress-Leads p s now h₁))
          λ u₂ h₂. Leads-ignore p s _ (put_progress-Leads p s now h₂ _)

-- The task can be drained: `k` of its subtasks are pending, all others are done, all have ids, and
-- nothing stops the pipeline.
pub record CanDrain (run_id : String) (k : ℕ) (v : View) : Type 0 where
  pub task : Task
  pub has_task : v.spec.task ≡ some task
  pub not_gated : is_gated task v.spec ≡ false
  pub plan : ImplementationPlan
  pub has_plan : v.spec.plan ≡ some plan
  pub named : is_named plan.phases ≡ true
  pub pending : count_pending_subtasks plan ≡ k
  pub rest_done : (count_plan_subtasks plan).0 ≡ k + (count_plan_subtasks plan).1
  pub some_work : 0 < (count_plan_subtasks plan).0
  pub not_paused : (progress_of v.spec).paused ≡ false
  pub not_cancelled : is_cancelled (lookup run_id v.runs) ≡ false

pub some_phases :
    (plan : ImplementationPlan) → 0 < (count_plan_subtasks plan).0 → is_empty plan.phases ≡ false
unfolding count_plan_subtasks
some_phases plan h = go plan.phases h
  where
    go : (xs : List PlanPhase) → 0 < count_phases (λ _. true) xs → is_empty xs ≡ false
    go [] h = absurd (unfold count_phases in omega (arith, h))
    go (x ∷ xs) h = refl

completed_not_pending : is_pending "completed" ≡ false
unfolding is_pending
completed_not_pending = refl

completed_is_done : is_done "completed" ≡ true
unfolding is_done
completed_is_done = refl

-- A pending subtask that was marked completed.
IsMarked-counts :
    {k : ℕ} (plan : ImplementationPlan)
    → count_pending_subtasks plan ≡ suc k
    → IsMarked "completed" plan (mark_next "completed" plan).1
IsMarked-counts plan h = elim (mark_next_counts "completed" plan completed_not_pending) [
  | inl (z, _) ↦ absurd (omega (arith, z, h))
  | inr m ↦ m
]

module _ (q : Project) (now : Time) (j : Job) where
  ungated_after :
      (plan : ImplementationPlan) (t : Task) (d : SpecDir)
      → is_gated (task_after q now j plan (record t { status = "in_progress"; updated_at = now })) d
        ≡ false
  ungated_after plan t d = elim (Bool-cases (all_done plan)) [
    | inl e ↦ rw e (ground (arith, ne_human_review))
    | inr e ↦ rw e (ground (arith, ne_human_review))
  ]
    where
      ne_human_review :
          (("review" == "human_review") ≡ false) × (("in_progress" == "human_review") ≡ false)
      ne_human_review = (refl, refl)

  pub next-CanDrain :
      {run_id : String} {k : ℕ} {v u v' : View}
      → (c : CanDrain run_id (suc k) v) → (progress_of u.spec).paused ≡ (progress_of v.spec).paused
      → u.runs ≡ v.runs
      → StepsTo q now j true (started_plan (mark_next "completed" c.plan).1) c.task u v'
      → CanDrain run_id k v'
  unfolding step_progress count_pending_subtasks count_plan_subtasks
  next-CanDrain {run_id} {k} {v} {u} {v'} c same_pause same_runs s =
      let m = IsMarked-counts c.plan c.pending in
      record {
        task = _;
        has_task = s.stored_task;
        not_gated = ungated_after (started_plan (mark_next "completed" c.plan).1) c.task v'.spec;
        plan = started_plan (mark_next "completed" c.plan).1;
        has_plan = s.stored_plan;
        named = mark_next-named "completed" c.plan c.named;
        pending = ground (arith, m.fewer_pending, c.pending);
        rest_done = ground (arith, m.same_total, m.done_if, c.rest_done, completed_is_done);
        some_work = ground (arith, m.same_total, c.some_work);
        not_paused =
            ap
              (λ (g : Option TaskProgress).
                (elim g as (λ _. TaskProgress) [ none ↦ no_progress | some g ↦ g ]).paused)
              s.stored_progress
            ∙ same_pause
            ∙ c.not_paused;
        not_cancelled =
            ap (λ r. is_cancelled (lookup run_id r)) (s.same_runs ∙ same_runs) ∙ c.not_cancelled;
      }
