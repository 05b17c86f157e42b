-- ===== src/Runner/Pausing/Laws.antt =====
-- A pause blocks the automation of its task, and a resumption frees it.
use opm_api.Prelude.{
  String, Bool, true, false, none, some, ◌≡◌, refl, ap, ◌<>◌, ◌==◌, if◌then◌else◌, Bool-cases, inl,
  inr, ok, ◌∙◌,
}
use opm_api.Models.{Time, Project, idle_status, no_progress, Job}
use opm_api.Actions.{is_pause_exempt}
use opm_api.World.{World}
use opm_api.Store.Running.{
  View, progress_of, At, Leads, view_of, Leads-pure, Leads-ignore, Leads-value_or, Leads-try,
  Leads-attempt, Leads-bind, Leads-then, Leads-with_project, get_progress-Leads, put_progress-Leads,
  append_spec_log-Leads,
}
use opm_api.Store.Running.Moves.{write_status-Leads}
use opm_api.Runner.{put_status}
use opm_api.Runner.Implementing.Laws.{own}
use opm_api.Runner.Pausing.{
  builtin_pause, builtin_resume, task_paused_block, paused_message, paused_progress,
  resumed_progress,
}

module _ (q : Project) (now : Time) (j : Job) where
  pub put_status-Leads :
      (state : String) {v : View} {w : World}
      → At (own q j) j.spec_id v w
      → Leads (own q j) j.spec_id (put_status now j.project_id j.spec_id j.run_id state) w tt v
  unfolding put_status
  put_status-Leads state h = Leads-ignore (own q j) j.spec_id _ (
      Leads-with_project (own q j) j.spec_id now _ h (
        write_status-Leads (own q j) j.spec_id now h
          (record (idle_status now) { state = state; spec = j.spec_id; run_id = j.run_id })))

  -- What a job is told, by whether it is exempt and by whether its task is paused.
  pub task_paused_block-Leads :
      {v : View} {w : World}
      → At (own q j) j.spec_id v w
      → (j.spec_id == "") ≡ false
      → Leads
          (own q j)
          j.spec_id
          (task_paused_block now j)
          w
          (if is_pause_exempt j.action
            then none
            else (if (progress_of v.spec).paused then some paused_message else none))
          v
  unfolding task_paused_block
  task_paused_block-Leads {v} h n = elim (Bool-cases (is_pause_exempt j.action)) [
    | inl e ↦ rw (e, task_paused_block) (Leads-pure (own q j) j.spec_id h)
    | inr e ↦
        rw (e, task_paused_block)
          (rw n (
            Leads-bind (own q j) j.spec_id _ _
              (Leads-attempt (own q j) j.spec_id _ (get_progress-Leads (own q j) j.spec_id now h))
              λ u k. Leads-pure (own q j) j.spec_id k))
  ]

  -- A task whose pause flag is `b` is told so.
  abbrev Flagged : Bool → View → Type 0
  Flagged b v = (progress_of v.spec).paused ≡ b

  builtin_pause-Leads :
      {v : View} {w : World}
      → At (own q j) j.spec_id v w
      → (j.spec_id == "") ≡ false
      → Flagged false v
      → (v' : View) × Flagged true v'
        × (m : String) × Leads
            (own q j)
            j.spec_id
            (builtin_pause now j)
            w
            (record { message = m; error = none })
            v'
  unfolding builtin_pause
  builtin_pause-Leads {v} h n f =
      let p = own q j in
      let s = j.spec_id in
      let l₁ = Leads-value_or p s no_progress _ (get_progress-Leads p s now h) in
      let l₂ =
        Leads-try p s _
          (put_progress-Leads p s now l₁.at (paused_progress now j (progress_of v.spec))) in
      let l₃ = put_status-Leads "idle" l₂.at in
      let l₄ = Leads-ignore p s _ (
        append_spec_log-Leads p s now l₃.at "implementation"
          ("[" <> j.run_id <> "] pause-task: automation paused\n")) in
      (
        view_of p s l₄,
        refl,
        "Task paused (builtin): further plan/build/review jobs blocked until resume-task.",
        rw n (
            Leads-then p s _ _ l₁ (
              rw f (
                Leads-then p s _ _ l₂
                  (Leads-then p s _ _ l₃ (Leads-then p s _ _ l₄ (Leads-pure p s l₄.at)))))),
      )

  builtin_resume-Leads :
      {v : View} {w : World}
      → At (own q j) j.spec_id v w
      → (j.spec_id == "") ≡ false
      → Flagged true v
      → (v' : View) × Flagged false v'
        × (m : String) × Leads
            (own q j)
            j.spec_id
            (builtin_resume now j)
            w
            (record { message = m; error = none })
            v'
  unfolding builtin_resume
  builtin_resume-Leads {v} h n f =
      let p = own q j in
      let s = j.spec_id in
      let l₁ = Leads-value_or p s no_progress _ (get_progress-Leads p s now h) in
      let l₂ =
        Leads-try p s _
          (put_progress-Leads p s now l₁.at (resumed_progress now j (progress_of v.spec))) in
      let l₃ = Leads-ignore p s _ (
        append_spec_log-Leads p s now l₂.at "implementation"
          ("[" <> j.run_id <> "] resume-task: automation resumed\n")) in
      (
        view_of p s l₃,
        refl,
        "Task resumed (builtin): plan/build/review jobs allowed again.",
        rw n (
            Leads-then p s _ _ l₁
              (rw f (Leads-then p s _ _ l₂ (Leads-then p s _ _ l₃ (Leads-pure p s l₃.at))))),
      )

-- In a ready project, a pause of a task that is not paused succeeds, and so does a resumption after
-- it. Between the two a job on the task is told that the task is paused, unless its action is one
-- that a pause does not stop, and after the resumption no job is told so.
pub pause-resume :
    (q : Project) (now : Time) (j : Job) (action : String) {v : View} {w : World}
    → At (own q j) j.spec_id v w
    → (j.spec_id == "") ≡ false
    → (progress_of v.spec).paused ≡ false
    → is_pause_exempt action ≡ false
    → (w₁ : World) × (w₂ : World) × (m₁ : String) × (m₂ : String) × (builtin_pause now j w
        ≡ (ok (record { message = m₁; error = none }), w₁))
      × ((task_paused_block now (record j { action = action }) w₁).0 ≡ ok (some paused_message))
      × (builtin_resume now j w₁ ≡ (ok (record { message = m₂; error = none }), w₂))
      × ((task_paused_block now (record j { action = action }) w₂).0 ≡ ok none)
pause-resume q now j action h n u x =
    let (v₁, f₁, m₁, l₁) = builtin_pause-Leads q now j h n u in
    let (v₂, f₂, m₂, l₂) = builtin_resume-Leads q now j l₁.at n f₁ in
    (
      l₁.after,
      l₂.after,
      m₁,
      m₂,
      l₁.runs_to,
      ap (λ o. o.0) (task_paused_block-Leads q now (record j { action = action }) l₁.at n).runs_to
          ∙ rw (x, f₁),
      l₂.runs_to,
      ap (λ o. o.0) (task_paused_block-Leads q now (record j { action = action }) l₂.at n).runs_to
          ∙ rw (x, f₂),
    )
