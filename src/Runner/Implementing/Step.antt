-- ===== src/Runner/Implementing/Step.antt =====
-- A whole implementation step in a ready project.
use opm_api.Prelude.{
  is_empty, String, Bool, false, not, ◌&&◌, none, some, ◌≡◌, refl, ap, sym, subst, ◌∙◌, ◌==◌,
  Bool-cases, Option-cases, inl, inr,
}
use opm_api.Models.{Time, Project, Task, ImplementationPlan, Job}
use opm_api.Plan.{mark_next, first_pending_subtask_id}
use opm_api.Plan.Counts.{first_pending-mark_next}
use opm_api.World.{SpecDir, World, ignore, value_or}
use opm_api.World.Ready.{with_project-ready}
use opm_api.Store.Running.{
  View, progress_of, At, Leads, Leads-pure, Leads-ignore, Leads-value_or, Leads-try, Leads-bind,
  get_plan-Leads,
}
use opm_api.Store.Running.Moves.{moved, get_task-Leads, move_task-Leads}
use opm_api.Store.Tasks.{read, read_spec, move_task}
use opm_api.Runner.Implementing.{
  started_plan, all_done, step_progress, step_message, complete_next, task_approved_for_coding,
  builtin_implementation_opts, coding_gate,
}
use opm_api.Runner.Implementing.Laws.{
  own, in_progress_column, task_after, parked, stepped, store_step-Leads,
}

abbrev pub approved_of : SpecDir → Bool
approved_of d = elim d.approved [ none ↦ false | some b ↦ b ]

-- Whether the task waits for an approval before coding.
abbrev pub is_gated : Task → SpecDir → Bool
is_gated t d = t.require_review_before_coding && (not (approved_of d) && t.status == "human_review")

module _ (q : Project) (now : Time) (j : Job) where
  pub approved-Leads :
      {v : View} {w : World}
      → At (own q j) j.spec_id v w
      → Leads
          (own q j)
          j.spec_id
          (task_approved_for_coding now j.project_id j.spec_id)
          w
          (approved_of v.spec)
          v
  unfolding task_approved_for_coding value_or read_spec read
  approved-Leads {v} {w} h = record {
    after = w;
    runs_to =
        rw
          (
            with_project-ready {p = own q j} h.ready now
                (λ p. read_spec (λ d. d.approved) p j.spec_id),
            value_or,
          )
          (rw (h.same_spec, read)
            (elim (Option-cases v.spec.approved) [ inl e ↦ rw e | inr (b, e) ↦ rw e ]));
    at = h;
  }

  pub coding_gate-Leads :
      {v : View} {w : World} (t : Task)
      → At (own q j) j.spec_id v w
      → Leads (own q j) j.spec_id (coding_gate now j t) w (is_gated t v.spec) v
  unfolding coding_gate
  coding_gate-Leads {v} {w} t h = elim (Bool-cases t.require_review_before_coding) [
    | inr e ↦ rw (e, coding_gate) (Leads-pure (own q j) j.spec_id h)
    | inl e ↦
        rw (e, coding_gate)
          (Leads-bind (own q j) j.spec_id _ _ (approved-Leads h)
            λ u k. Leads-pure (own q j) j.spec_id k)
  ]

  -- What a step does to the view, where `plan` is the plan that it stores.
  pub record StepsTo (keep_running : Bool) (plan : ImplementationPlan) (t : Task) (v v' : View)
      : Type 0 where
    pub stored_plan : v'.spec.plan ≡ some plan
    pub stored_progress :
        v'.spec.progress ≡ some (step_progress now j keep_running plan (progress_of v.spec))
    pub stored_task :
        v'.spec.task
        ≡ some (task_after q now j plan (record t { status = "in_progress"; updated_at = now }))
    pub same_approved : v'.spec.approved ≡ v.spec.approved
    pub same_runs : v'.runs ≡ v.runs

  stepped-StepsTo :
      (rfc3339 : Time → String) (keep_running : Bool) (id : String) (plan : ImplementationPlan)
      (t : Task) (v : View)
      → StepsTo keep_running plan t v (
          stepped q now j rfc3339 keep_running id plan
            (record t { status = "in_progress"; updated_at = now })
            (moved now j.spec_id "in_progress" t v))
  unfolding parked
  stepped-StepsTo rfc3339 keep_running id plan t v = elim (Bool-cases (all_done plan)) [
    | inl k ↦
        rw (k, parked)
          (record {
            stored_plan = refl;
            stored_progress = refl;
            stored_task = rw k;
            same_approved = refl;
            same_runs = refl;
          })
    | inr k ↦
        rw (k, parked)
          (record {
            stored_plan = refl;
            stored_progress = refl;
            stored_task = rw k;
            same_approved = refl;
            same_runs = refl;
          })
  ]

  pub move_to_coding-Leads :
      {v : View} {w : World} {t : Task}
      → At (own q j) j.spec_id v w
      → v.spec.task ≡ some t
      → Leads
          (own q j)
          j.spec_id
          (ignore (move_task now j.project_id j.spec_id "in_progress"))
          w
          tt
          (moved now j.spec_id "in_progress" t v)
  move_to_coding-Leads {v} {w} {t} h e = Leads-ignore (own q j) j.spec_id _ (
      subst
        (λ c.
          Leads (own q j) j.spec_id (move_task now j.project_id j.spec_id "in_progress") w
            (record t { status = c; updated_at = now }) (moved now j.spec_id c t v))
        in_progress_column.1
        (move_task-Leads (own q j) j.spec_id now h "in_progress" in_progress_column.0 e))

  complete_next-Leads :
      (rfc3339 : Time → String) (keep_running : Bool) (plan : ImplementationPlan) {v : View}
      {w : World} {t : Task}
      → At (own q j) j.spec_id v w
      → v.spec.task ≡ some t
      → ((mark_next "completed" plan).0 == "") ≡ false
      → let (id, marked) = mark_next "completed" plan in
        Leads
          (own q j)
          j.spec_id
          (complete_next rfc3339 now j keep_running plan)
          w
          (record { message = step_message now j id (started_plan marked); error = none })
          (stepped q now j rfc3339 keep_running id (started_plan marked) t v)
  unfolding complete_next
  complete_next-Leads rfc3339 keep_running plan h e n =
      let (id, marked) = mark_next "completed" plan in
      rw (n, complete_next)
        (store_step-Leads q now j rfc3339 keep_running id (started_plan marked) h e)

  -- A whole step, with the plan that the code makes.
  pub builtin_implementation_opts-StepsTo :
      (rfc3339 : Time → String) (keep_running : Bool) {v : View} {w : World} {t : Task}
      {plan : ImplementationPlan}
      → At (own q j) j.spec_id v w
      → (j.spec_id == "") ≡ false
      → v.spec.task ≡ some t
      → is_gated t v.spec ≡ false
      → v.spec.plan ≡ some plan
      → is_empty plan.phases ≡ false
      → (first_pending_subtask_id plan == "") ≡ false
      → let (id, marked) = mark_next "completed" plan in
        (v' : View) × StepsTo keep_running (started_plan marked) t v v'
        × Leads
            (own q j)
            j.spec_id
            (builtin_implementation_opts rfc3339 now j keep_running)
            w
            (record { message = step_message now j id (started_plan marked); error = none })
            v'
  unfolding builtin_implementation_opts
  builtin_implementation_opts-StepsTo rfc3339 keep_running {v} {w} {t} {plan} h n e g pe ne f =
      let p = own q j in
      let s = j.spec_id in
      let (id, marked) = mark_next "completed" plan in
      (
        _,
        stepped-StepsTo rfc3339 keep_running id (started_plan marked) t v,
        rw (n, builtin_implementation_opts)
            (Leads-bind p s _ _ (Leads-try p s _ (get_task-Leads p s now h e)) λ u₁ h₁.
              Leads-bind p s _ _
                (subst (λ b. Leads p s (coding_gate now j t) u₁ b v) g (coding_gate-Leads t h₁))
                λ u₂ h₂.
                  Leads-bind p s _ _ (Leads-value_or p s _ _ (get_plan-Leads p s now h₂ pe))
                    λ u₃ h₃. rw ne (
                      Leads-bind p s _ _ (move_to_coding-Leads h₃ e) λ u₄ h₄.
                        complete_next-Leads rfc3339 keep_running plan h₄ refl (
                          ap (λ i. i == "") (sym (first_pending-mark_next "completed" plan)) ∙ f))),
      )
