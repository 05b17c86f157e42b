-- ===== src/Runner/Pipeline/Complete.antt =====
-- The pipeline with the builtin steps drains its task and parks it in `review`.
use opm_api.Prelude.{
  ℕ, zero, suc, ◌≤◌, String, Bool, true, false, ◌||◌, none, List, [], ◌∷◌, ◌++◌, ◌≡◌, refl, ap,
  subst, ◌∙◌, arith, ◌==◌, nat_eq,
}
use opm_api.Models.{Time, Project, Job}
use opm_api.World.{World}
use opm_api.Store.Running.{
  View, At, Leads, Leads-pure, Leads-value_or, Leads-bind, Leads-then, get_plan-Leads,
}
use opm_api.Runner.{no_plan}
use opm_api.Runner.Implementing.Laws.{own}
use opm_api.Runner.Implementing.Step.{builtin_implementation_opts-StepsTo}
use opm_api.Runner.Pipeline.{drained, drain, pipeline_step_job, pipeline_progress}
use opm_api.Runner.Pipeline.Named.{first_pending_subtask_id_lem}
use opm_api.Runner.Pipeline.Draining.{
  builtin_step, CanDrain, next-CanDrain, some_phases, not_blocked-Leads,
  set_pipeline_progress-Leads, told,
}

suc_not_zero : (k : ℕ) → nat_eq (suc k) 0 ≡ false
suc_not_zero k = ground arith

-- The job of an implementation step.
abbrev step_job : Job → Job
step_job j = pipeline_step_job j "run-implementation"

module _ (q : Project) (rfc3339 : Time → String) (now : Time) (j : Job)
    (has_spec : (j.spec_id == "") ≡ false) where
  step-Leads :
      {k : ℕ} {v : View} {w : World}
      → At (own q j) j.spec_id v w
      → (c : CanDrain j.run_id (suc k) v)
      → (v' : View) × CanDrain j.run_id k v'
        × (m : String) × Leads
            (own q j)
            j.spec_id
            (builtin_step rfc3339 now (step_job j))
            w
            (record { message = m; error = none }, false)
            v'
  unfolding builtin_step pipeline_step_job
  step-Leads {k} {v} {w} h c =
      let (v', s, l) =
        builtin_implementation_opts-StepsTo q now (step_job j) rfc3339 true h has_spec c.has_task
          c.not_gated c.has_plan (some_phases c.plan c.some_work)
          (first_pending_subtask_id_lem c.plan c.named
            ∙ ap (λ n. nat_eq n 0) c.pending
            ∙ suc_not_zero k) in
      (
        v',
        next-CanDrain q now (step_job j) c refl refl s,
        _,
        Leads-bind (own q j) j.spec_id _ _ l λ u k. Leads-pure (own q j) j.spec_id k,
      )

  pub told-CanDrain :
      {k : ℕ} {v : View} (action phase : String) (running : Bool)
      → (c : CanDrain j.run_id k v)
      → CanDrain j.run_id k (told q now j action phase running c.plan v)
  unfolding pipeline_progress
  told-CanDrain action phase running c = record {
    task = c.task;
    has_task = c.has_task;
    not_gated = c.not_gated;
    plan = c.plan;
    has_plan = c.has_plan;
    named = c.named;
    pending = c.pending;
    rest_done = c.rest_done;
    some_work = c.some_work;
    not_paused = c.not_paused;
    not_cancelled = c.not_cancelled;
  }

  -- With as many rounds as there are pending subtasks, the drain ends with none pending.
  pub drain-Leads :
      (n k : ℕ) (steps : List String) (used : Bool) {v : View} {w : World}
      → k ≤ n
      → At (own q j) j.spec_id v w
      → CanDrain j.run_id k v
      → (messages : List String) × (used' : Bool) × (v' : View) × CanDrain j.run_id 0 v'
        × Leads
            (own q j)
            j.spec_id
            (drain now j (builtin_step rfc3339 now) n steps used)
            w
            (drained messages used')
            v'
  unfolding drain
  drain-Leads zero k steps used {v} l h c = (
    steps,
    used,
    v,
    subst (λ k. CanDrain j.run_id k v) (omega arith) c,
    Leads-pure (own q j) j.spec_id h,
  )
  drain-Leads (suc n) zero steps used {v} l h c =
      let p = own q j in
      let s = j.spec_id in
      (
        steps,
        used,
        v,
        c,
        Leads-bind p s _ _ (not_blocked-Leads q now j h c.not_cancelled c.not_paused) λ u₁ h₁.
            Leads-bind p s _ _ (Leads-value_or p s _ _ (get_plan-Leads p s now h₁ c.has_plan))
              λ u₂ h₂.
                rw (first_pending_subtask_id_lem c.plan c.named ∙ ap (λ n. nat_eq n 0) c.pending)
                  (Leads-pure p s h₂),
      )
  drain-Leads (suc n) (suc k) steps used {v} {w} l h c =
      let p = own q j in
      let s = j.spec_id in
      let l₁ = not_blocked-Leads q now j h c.not_cancelled c.not_paused in
      let l₂ = Leads-value_or p s no_plan _ (get_plan-Leads p s now l₁.at c.has_plan) in
      let l₃ =
        set_pipeline_progress-Leads q now j "run-implementation" "Implement" true l₂.at
          c.has_plan in
      let (v', c', m, l₄) =
        step-Leads l₃.at (told-CanDrain "run-implementation" "Implement" true c) in
      let (ms, used', v'', c'', l₅) =
        drain-Leads n k (steps ++ m ∷ []) (used || false) (omega (arith, l)) l₄.at c' in
      (
        ms,
        used',
        v'',
        c'',
        Leads-then p s _ _ l₁ (
            Leads-then p s _ _ l₂ (
              rw
                (first_pending_subtask_id_lem c.plan c.named
                  ∙ ap (λ n. nat_eq n 0) c.pending
                  ∙ suc_not_zero k)
                (Leads-then p s _ _ l₃ (Leads-then p s _ _ l₄ l₅)))),
      )
