-- ===== src/Runner/Repairing/Laws.antt =====
-- What a recovery does in a ready project.
use opm_api.Prelude.{
  is_empty, join, ◌<◌, String, false, none, some, List, [], ◌∷◌, ◌≡◌, refl, arith, ◌<>◌, ◌==◌,
  length,
}
use opm_api.Models.{Time, Project, Task, ImplementationPlan, no_progress, Job}
use opm_api.Plan.{
  is_recoverable, count_phases, reset_phases, count_stuck_or_failed, count_plan_subtasks,
}
use opm_api.Plan.Resetting.{reset_phases-IsReset}
use opm_api.World.{World}
use opm_api.Store.Running.{
  View, progress_of, At, Leads, view_of, Leads-pure, Leads-ignore, Leads-value_or, Leads-try,
  Leads-then, get_plan-Leads, put_plan-Leads, get_progress-Leads, put_progress-Leads,
  append_spec_log-Leads,
}
use opm_api.Runner.{no_plan}
use opm_api.Runner.Implementing.{started_plan}
use opm_api.Runner.Implementing.Laws.{own}
use opm_api.Runner.Implementing.Step.{move_to_coding-Leads}
use opm_api.Runner.Pausing.Laws.{put_status-Leads}
use opm_api.Runner.Repairing.{recovered_progress, store_recovery, builtin_recover}

-- The view after a recovery of `plan`: nothing is stuck, as much is done as before, and the task
-- stands in `in_progress` and is not paused.
pub record IsRecovered (plan : ImplementationPlan) (v : View) : Type 0 where
  pub plan' : ImplementationPlan
  pub has_plan : v.spec.plan ≡ some plan'
  pub no_stuck : count_stuck_or_failed plan' ≡ 0
  pub same_done : (count_plan_subtasks plan').1 ≡ (count_plan_subtasks plan).1
  pub same_total : (count_plan_subtasks plan').0 ≡ (count_plan_subtasks plan).0
  pub task : Task
  pub has_task : v.spec.task ≡ some task
  pub in_progress : task.status ≡ "in_progress"
  pub not_paused : (progress_of v.spec).paused ≡ false

some_ids : (ids : List String) → 0 < length ids → is_empty ids ≡ false
some_ids [] h = absurd (omega (arith, h))
some_ids (x ∷ xs) h = refl

module _ (q : Project) (now : Time) (j : Job) where
  store_recovery-Leads :
      (ids : List String) (plan : ImplementationPlan) {v : View} {w : World} {t : Task}
      → At (own q j) j.spec_id v w
      → v.spec.task ≡ some t
      → (v' : View) × (v'.spec.plan ≡ some plan)
        × (v'.spec.task ≡ some (record t { status = "in_progress"; updated_at = now }))
        × ((progress_of v'.spec).paused ≡ false)
        × (m : String) × Leads
            (own q j)
            j.spec_id
            (store_recovery now j ids plan)
            w
            (record { message = m; error = none })
            v'
  unfolding store_recovery
  store_recovery-Leads ids plan {v} h e =
      let p = own q j in
      let s = j.spec_id in
      let l₁ = Leads-try p s _ (put_plan-Leads p s now h plan) in
      let l₂ = Leads-value_or p s no_progress _ (get_progress-Leads p s now l₁.at) in
      let l₃ =
        Leads-ignore p s _
          (put_progress-Leads p s now l₂.at (recovered_progress now j plan (progress_of v.spec))) in
      let l₄ = move_to_coding-Leads q now j l₃.at e in
      let l₅ = Leads-ignore p s _ (
        append_spec_log-Leads p s now l₄.at "implementation"
          ("[" <> j.run_id <> "] recover-subtask: reset " <> join ", " ids <> " to pending\n")) in
      let l₆ = put_status-Leads q now j "idle" l₅.at in
      (
        view_of p s l₆,
        refl,
        refl,
        refl,
        _,
        Leads-then p s _ _ l₁ (
            Leads-then p s _ _ l₂ (
              Leads-then p s _ _ l₃ (
                Leads-then p s _ _ l₄
                  (Leads-then p s _ _ l₅ (Leads-then p s _ _ l₆ (Leads-pure p s l₆.at)))))),
      )

  -- In a ready project, for a task with a plan in which some subtask is stuck, failed or in progress,
  -- a recovery returns no error. After it no subtask is stuck or failed, as many as before are done,
  -- and the task stands in `in_progress` and is not paused.
  pub builtin_recover-IsRecovered :
      {v : View} {w : World} {t : Task} {plan : ImplementationPlan}
      → At (own q j) j.spec_id v w
      → (j.spec_id == "") ≡ false
      → v.spec.task ≡ some t
      → v.spec.plan ≡ some plan
      → is_empty plan.phases ≡ false
      → 0 < count_phases is_recoverable plan.phases
      → (v' : View) × IsRecovered plan v'
        × (m : String) × Leads
            (own q j)
            j.spec_id
            (builtin_recover now j)
            w
            (record { message = m; error = none })
            v'
  unfolding builtin_recover count_stuck_or_failed count_plan_subtasks
  builtin_recover-IsRecovered {v} {w} {t} {plan} h n e pe ne k =
      let p = own q j in
      let s = j.spec_id in
      let r = reset_phases-IsReset plan.phases in
      let (ids, phases) = reset_phases plan.phases in
      let l₁ = Leads-value_or p s no_plan _ (get_plan-Leads p s now h pe) in
      let (v', hp, ht, np, m, l₂) =
        store_recovery-Leads ids (started_plan (record plan { phases = phases })) l₁.at e in
      (
        v',
        record {
          plan' = started_plan (record plan { phases = phases });
          has_plan = hp;
          no_stuck = r.no_stuck;
          same_done = r.same_done;
          same_total = r.same_total;
          task = _;
          has_task = ht;
          in_progress = refl;
          not_paused = np;
        },
        m,
        rw n (Leads-then p s _ _ l₁ (rw ne (rw (some_ids ids (omega (arith, r.reported, k))) l₂))),
      )
