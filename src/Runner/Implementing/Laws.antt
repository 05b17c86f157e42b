-- ===== src/Runner/Implementing/Laws.antt =====
-- What is stored after a subtask was marked, in a ready project.
use opm_api.Prelude.{
  String, Bool, true, none, some, ◌≡◌, refl, ◌<>◌, contains, trim_space, update, show,
  if◌then◌else◌, Bool-cases, inl, inr, subst,
}
use opm_api.Models.{Time, Project, board_columns, Task, ImplementationPlan, Job}
use opm_api.Plan.{count_plan_subtasks}
use opm_api.World.{SpecDir, World}
use opm_api.Store.Running.{
  View, progress_of, At, Leads, Leads-pure, Leads-ignore, Leads-value_or, Leads-try, Leads-bind,
  put_plan-Leads, put_progress-Leads, append_spec_log-Leads, get_progress-Leads, Leads-with_project,
}
use opm_api.Store.Running.Moves.{moved, move_task-Leads, write_spec_file-Leads}
use opm_api.Store.Tasks.{move_task}
use opm_api.Runner.Implementing.{all_done, step_progress, step_message, park, store_step}

-- The project of a job.
abbrev pub own : Project → Job → Project
own q j = record q { id = j.project_id }

pub review_column :
    (contains board_columns (trim_space "review") ≡ true) × (trim_space "review" ≡ "review")
unfolding contains trim_space
review_column = (refl, refl)

pub in_progress_column :
    (contains board_columns (trim_space "in_progress") ≡ true)
    × (trim_space "in_progress" ≡ "in_progress")
unfolding contains trim_space
in_progress_column = (refl, refl)

-- The column of a task after a step that stored `plan`.
abbrev pub column_after : ImplementationPlan → String
column_after plan = if all_done plan then "review" else "in_progress"

module _ (q : Project) (now : Time) (j : Job) where
  unfoldable pub parked : ImplementationPlan → Task → View → View
  parked plan t v = if all_done plan then moved now j.spec_id "review" t v else v

  park-Leads :
      (plan : ImplementationPlan) {v : View} {w : World} {t : Task}
      → At (own q j) j.spec_id v w
      → v.spec.task ≡ some t
      → Leads (own q j) j.spec_id (park now j plan) w tt (parked plan t v)
  unfolding park parked
  park-Leads plan {v} {w} {t} h e = elim (Bool-cases (all_done plan)) [
    | inl k ↦
        rw (k, parked, park)
          (Leads-ignore (own q j) j.spec_id _ (
            subst
              (λ c.
                Leads (own q j) j.spec_id (move_task now j.project_id j.spec_id "review") w
                  (record t { status = c; updated_at = now }) (moved now j.spec_id c t v))
              review_column.1
              (move_task-Leads (own q j) j.spec_id now h "review" review_column.0 e)))
    | inr k ↦ rw (k, parked, park) (Leads-pure (own q j) j.spec_id h)
  ]

  -- The task after a step that stored `plan`.
  abbrev pub task_after : ImplementationPlan → Task → Task
  task_after plan t = if all_done plan then record t { status = "review"; updated_at = now } else t

  parked_task :
      (plan : ImplementationPlan) (t : Task) (v : View)
      → v.spec.task ≡ some t
      → (parked plan t v).spec.task ≡ some (task_after plan t)
  unfolding parked
  parked_task plan t v e = elim (Bool-cases (all_done plan)) [
    | inl k ↦ rw (k, parked)
    | inr k ↦ rw (k, parked) e
  ]

  module _ (rfc3339 : Time → String) (keep_running : Bool) (id : String)
      (plan : ImplementationPlan) where
    -- The line of the log and the line of the notes.
    abbrev log_line : String
    log_line =
        let (total, done) = count_plan_subtasks plan in
        "["
        <> j.run_id
        <> "] completed subtask "
        <> id
        <> " ("
        <> show done
        <> "/"
        <> show total
        <> ")\n"

    abbrev add_note : SpecDir → SpecDir
    add_note d = record d {
      notes = some (
          elim d.notes [ none ↦ "" | some n ↦ n ]
          <> "- "
          <> rfc3339 now
          <> ": completed subtask "
          <> id
          <> " (builtin runner)\n");
    }

    -- The view after a step that stored `plan`.
    abbrev pub stepped : Task → View → View
    stepped t v =
        let v₁ = record v { spec = record (v.spec) { plan = some plan } } in
        let v₂ = parked plan t v₁ in
        let v₃ = record v₂ {
          spec = record (v₂.spec) {
            progress = some (step_progress now j keep_running plan (progress_of v.spec));
          };
        } in
        let v₄ = record v₃ {
          spec = record (v₃.spec) {
            logs = update v₃.spec.logs "implementation" (v₃.spec.logs "implementation" <> log_line);
          };
        } in
        record v₄ { spec = add_note v₄.spec }

    pub store_step-Leads :
        {v : View} {w : World} {t : Task}
        → At (own q j) j.spec_id v w
        → v.spec.task ≡ some t
        → Leads
            (own q j)
            j.spec_id
            (store_step rfc3339 now j keep_running id plan)
            w
            (record { message = step_message now j id plan; error = none })
            (stepped t v)
    unfolding store_step
    store_step-Leads {v} {w} {t} h e =
        let p = own q j in
        let s = j.spec_id in
        Leads-bind p s _ _ (Leads-try p s _ (put_plan-Leads p s now h plan)) λ u₁ h₁.
          Leads-bind p s _ _ (Leads-value_or p s _ _ (get_progress-Leads p s now h₁)) λ u₂ h₂.
            Leads-bind p s _ _ (park-Leads plan h₂ e) λ u₃ h₃.
              Leads-bind p s _ _ (Leads-ignore p s _ (put_progress-Leads p s now h₃ _)) λ u₄ h₄.
                Leads-bind p s _ _ (Leads-ignore p s _ (append_spec_log-Leads p s now h₄ _ _))
                  λ u₅ h₅.
                    Leads-bind p s _ _
                      (Leads-ignore p s _ (
                        Leads-with_project p s now _ h₅
                          (write_spec_file-Leads p s _ add_note h₅ (parked_task plan t _ e))))
                      λ u₆ h₆. Leads-pure p s h₆
