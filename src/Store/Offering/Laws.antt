-- ===== src/Store/Offering/Laws.antt =====
-- What the offered actions say of the jobs that they start.
use opm_api.Prelude.{
  Bool, true, false, some, none, ok, ◌==◌, ◌≡◌, refl, ap, sym, ◌∙◌, Bool-cases, inl, inr, arith,
  subst, if◌then◌else◌,
}
use opm_api.Models.{Time, Project, Task, ImplementationPlan, TaskProgress, Job}
use opm_api.World.{World}
use opm_api.Registry.Tenants.{ok-injective}
use opm_api.Store.Running.{
  View, progress_of, At, Leads, Leads-pure, Leads-value_or, Leads-then, get_progress-Leads,
}
use opm_api.Store.Running.Moves.{get_task-Leads}
use opm_api.Runner.Implementing.{coding_gate, task_approved_for_coding}
use opm_api.Runner.Implementing.Laws.{own}
use opm_api.Runner.Implementing.Step.{approved_of, is_gated, approved-Leads, coding_gate-Leads}
use opm_api.Runner.Pausing.{task_paused_block}
use opm_api.Runner.Pausing.Laws.{task_paused_block-Leads}
use opm_api.Runner.Planning.Laws.{plan_of, plan_or_none-Leads}
use opm_api.Actions.{is_pause_exempt}
use opm_api.Store.Offering.{TaskValidActions, offered, coding_approved, get_task_valid_actions}

-- An offer of the implementation is made to a task that is neither paused nor unapproved.
offered-implementation :
    (approved : Bool) (t : Task) (plan : ImplementationPlan) (prog : TaskProgress)
    → (offered approved t plan prog).implementation ≡ true
    → (prog.paused ≡ false) × (approved ≡ true)
unfolding offered
offered-implementation approved t plan prog h = ground arith

module _ (q : Project) (now : Time) (j : Job) where
  abbrev approval : Task → View → Bool
  approval t v = if t.require_review_before_coding then approved_of v.spec else true

  coding_approved-Leads :
      {v : View} {w : World} (t : Task)
      → At (own q j) j.spec_id v w
      → Leads (own q j) j.spec_id (coding_approved now j.project_id j.spec_id t) w (approval t v) v
  unfolding coding_approved task_approved_for_coding
  coding_approved-Leads t h = elim (Bool-cases t.require_review_before_coding) [
    | inl e ↦ rw (e, coding_approved) (approved-Leads q now j h)
    | inr e ↦ rw (e, coding_approved) (Leads-pure (own q j) j.spec_id h)
  ]

  get_task_valid_actions-Leads :
      {v : View} {w : World} {t : Task}
      → At (own q j) j.spec_id v w
      → v.spec.task ≡ some t
      → Leads
          (own q j)
          j.spec_id
          (get_task_valid_actions now j.project_id j.spec_id)
          w
          (offered (approval t v) t (plan_of v) (progress_of v.spec))
          v
  unfolding get_task_valid_actions
  get_task_valid_actions-Leads {v} {w} {t} h e =
      let p = own q j in
      let s = j.spec_id in
      let l₁ = get_task-Leads p s now h e in
      let l₂ = plan_or_none-Leads p s now l₁.at in
      let l₃ = Leads-value_or p s _ _ (get_progress-Leads p s now l₂.at) in
      let l₄ = coding_approved-Leads t l₃.at in
      Leads-then p s _ _ l₁ (
        Leads-then p s _ _ l₂
          (Leads-then p s _ _ l₃ (Leads-then p s _ _ l₄ (Leads-pure p s l₄.at))))

  -- In a ready project, where the valid actions of a task offer its implementation, the checks of an
  -- implementation job let it pass: the coding gate is open, and the task is not paused.
  pub get_task_valid_actions-passes :
      {v : View} {w : World} {t : Task}
      → At (own q j) j.spec_id v w
      → (j.spec_id == "") ≡ false
      → v.spec.task ≡ some t
      → {a : TaskValidActions} {w' : World}
      → get_task_valid_actions now j.project_id j.spec_id w ≡ (ok a, w')
      → a.implementation ≡ true
      → Leads (own q j) j.spec_id (coding_gate now j t) w false v
        × Leads (own q j) j.spec_id (task_paused_block now j) w none v
  get_task_valid_actions-passes {v} {w} {t} h n e {a} run offers =
      let p = own q j in
      let s = j.spec_id in
      let same : a ≡ offered (approval t v) t (plan_of v) (progress_of v.spec) =
        ok-injective (ap (λ o. o.0) (sym run ∙ (get_task_valid_actions-Leads h e).runs_to)) in
      let (going, approved) =
        offered-implementation (approval t v) t (plan_of v) (progress_of v.spec)
          (ap (λ x. x.implementation) (sym same) ∙ offers) in
      (
        subst (λ b. Leads p s (coding_gate now j t) w b v) (open_gate t v approved)
            (coding_gate-Leads q now j t h),
        subst (λ m. Leads p s (task_paused_block now j) w m v)
            (rw going (elim (Bool-cases (is_pause_exempt j.action)) [
              | inl k ↦ rw k refl
              | inr k ↦ rw k refl
            ]))
            (task_paused_block-Leads q now j h n),
      )
    where
      open_gate : (t : Task) (v : View) → approval t v ≡ true → is_gated t v.spec ≡ false
      open_gate t v k = ground arith
