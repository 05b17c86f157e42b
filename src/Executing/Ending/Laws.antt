-- ===== src/Executing/Ending/Laws.antt =====
-- How a job ends, in a ready project.
use opm_api.Prelude.{
  String, Bool, false, ◌||◌, Option, none, some, ◌<>◌, ◌==◌, ◌≡◌, refl, lookup, lookup-insert,
  eq_refl, eq_iff, arith, Bool-cases, Option-cases, inl, inr,
}
use opm_api.Models.{Time, Project, Job, idle_status}
use opm_api.World.{World, Op}
use opm_api.Store.Running.{
  View, At, Leads, Leads-pure, Leads-ignore, Leads-attempt, Leads-then, Leads-with_project,
}
use opm_api.Store.Running.Moves.{write_status-Leads}
use opm_api.Store.Running.Enqueuing.{with_run, get_job-Leads, update_job-Leads}
use opm_api.Runner.{Outcome}
use opm_api.Runner.Implementing.Laws.{own}
use opm_api.Autopilot.{Settings}
use opm_api.Executing.Ending.{
  keeps_status, plans, failed_job, completed_job, fail_job, idle_after, follow_up, complete_job,
  told_message, end_job, finish_job,
}

module _ (cfg : Settings) (now : Time) (uuid : String) (action : String) (q : Project) where
  -- What is recorded of the job after its action: a cancelled one is left as it is, an error fails it,
  -- and else it is completed.
  pub data Ended (execution : String) (error : Option String) (j : Job) (v : View)
      : View → Type 0 where
    left : j.state ≡ "cancelled" → Ended execution error j v v
    failed :
        {v' : View} {e : String} {k : Job}
        → (j.state == "cancelled") ≡ false
        → error ≡ some e
        → lookup j.run_id v'.runs ≡ some k
        → k.state ≡ "failed"
        → k.error ≡ e
        → k.completed_at ≡ some now
        → Ended execution error j v v'
    completed :
        {v' : View} {k : Job}
        → (j.state == "cancelled") ≡ false
        → error ≡ none
        → lookup j.run_id v'.runs ≡ some k
        → k.state ≡ "completed"
        → k.execution ≡ execution
        → k.action ≡ action
        → k.progress_pct ≡ some 100
        → k.completed_at ≡ some now
        → Ended execution error j v v'

  pub lookup-with_run : (j : Job) (v : View) → lookup j.run_id (with_run j v).runs ≡ some j
  lookup-with_run j v = rw (lookup-insert j.run_id j.run_id j v.runs) (rw (eq_refl j.run_id) refl)

  idle_after-Leads :
      (j : Job) {v : View} {w : World}
      → At (own q j) j.spec_id v w
      → Leads (own q j) j.spec_id (idle_after now action j) w tt v
  unfolding idle_after
  idle_after-Leads j h = elim (Bool-cases (keeps_status action)) [
    | inl e ↦ rw (e, idle_after) (Leads-pure (own q j) j.spec_id h)
    | inr e ↦
        rw (e, idle_after)
          (Leads-ignore (own q j) j.spec_id _ (
            Leads-with_project (own q j) j.spec_id now _ h (
              write_status-Leads (own q j) j.spec_id now h
                (record (idle_status now) { run_id = j.run_id }))))
  ]

  pub fail_job-Leads :
      (j : Job) (execution message e : String) {v : View} {w : World}
      → At (own q j) j.spec_id v w
      → Leads
          (own q j)
          j.spec_id
          (fail_job now execution j message e)
          w
          tt
          (with_run (record (failed_job now execution message e j) { updated_at = now }) v)
  unfolding fail_job
  fail_job-Leads j execution message e h =
      Leads-ignore (own q j) j.spec_id _
        (update_job-Leads (own q j) j.spec_id now h (failed_job now execution message e j))

  -- Whether a job may follow the action.
  abbrev pub is_followed : Bool
  is_followed = action == "run-implementation" || plans action

  follow_up-Leads :
      (j : Job) {v : View} {w : World}
      → At (own q j) j.spec_id v w
      → is_followed ≡ false
      → Leads (own q j) j.spec_id (follow_up cfg now uuid action j) w ("", none) v
  unfolding follow_up
  follow_up-Leads j h n = elim (Bool-cases (action == "run-implementation")) [
    | inl e ↦ absurd (ground (arith, n, e))
    | inr e ↦ elim (Bool-cases (plans action)) [
      | inl k ↦ absurd (ground (arith, n, e, k))
      | inr k ↦ rw (e, follow_up) (rw k (Leads-pure (own q j) j.spec_id h))
    ]
  ]

  -- The end of the job that is read again leads to a view in which it is ended.
  abbrev pub Ends : String → Outcome → Job → View → World → Op (Option Job) → Type 0
  Ends execution out j v w m =
      (v' : View) × Ended execution out.error j v v' × Leads (own q j) j.spec_id m w none v'

  end_job-Ends :
      (execution spawn_note : String) (out : Outcome) (j : Job) {v : View} {w : World}
      → At (own q j) j.spec_id v w
      → is_followed ≡ false
      → Ends execution out j v w (end_job cfg now uuid action execution spawn_note out j)
  unfolding end_job complete_job
  end_job-Ends execution spawn_note out j {v} {w} h n =
      let p = own q j in
      let message = told_message cfg now uuid action spawn_note out.message in
      elim (Bool-cases (j.state == "cancelled")) [
        | inl c ↦
            rw (c, end_job) (v, left ((eq_iff j.state "cancelled").0 c), Leads-pure p j.spec_id h)
        | inr c ↦ elim (Option-cases out.error) [
          | inr (e, k) ↦
              let l = fail_job-Leads j execution message e h in
              rw (c, end_job)
                (rw k (
                  _,
                  failed c refl (lookup-with_run _ v) refl refl refl,
                  Leads-then p j.spec_id _ _ l (Leads-pure p j.spec_id l.at),
                ))
          | inl k ↦
              let done_so = completed_job now action execution (message <> "") j in
              let l₁ = follow_up-Leads j h n in
              let l₂ =
                Leads-ignore p j.spec_id _ (update_job-Leads p j.spec_id now l₁.at done_so) in
              let l₃ = idle_after-Leads j l₂.at in
              rw (c, end_job)
                (rw k (
                  _,
                  completed c refl (lookup-with_run _ v) refl refl refl refl refl,
                  Leads-then p j.spec_id _ _ l₁ (
                      Leads-then p j.spec_id _ _ l₂
                        (Leads-then p j.spec_id _ _ l₃ (Leads-pure p j.spec_id l₃.at))),
                ))
        ]
      ]

  -- In a ready project, a job that is recorded there ends when its action does, where the action is
  -- neither `run-implementation` nor one that plans: one that was cancelled in the meantime is left as
  -- it is, with all else in the view. Any other is failed by an error, which is recorded, and is
  -- completed where there is none, at 100 percent, under the action it started with.
  pub finish_job-Ended :
      (execution spawn_note : String) (out : Outcome) (j : Job) {v : View} {w : World}
      → At (own q j) j.spec_id v w
      → lookup j.run_id v.runs ≡ some j
      → is_followed ≡ false
      → (v' : View) × Ended execution out.error j v v'
        × Leads
            (own q j)
            j.spec_id
            (finish_job cfg now uuid action j.project_id j.run_id execution spawn_note out)
            w
            none
            v'
  unfolding finish_job
  finish_job-Ended execution spawn_note out j h e n =
      let p = own q j in
      let l = Leads-attempt p j.spec_id _ (get_job-Leads p j.spec_id now h j.run_id e) in
      let (v', ended, k) = end_job-Ends execution spawn_note out j l.at n in
      (v', ended, Leads-then p j.spec_id _ _ l k)
