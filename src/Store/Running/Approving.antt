-- ===== src/Store/Running/Approving.antt =====
-- `ApproveForCoding` in a ready project.
use opm_api.Prelude.{
  String, true, false, some, err, ◌≡◌, refl, ◌<>◌, ◌==◌, contains, trim_space, subst, ◌∙◌,
  Bool-cases, inl, inr, ◌⊎◌,
}
use opm_api.Models.{Time, Project, board_columns, Task}
use opm_api.World.{File, World}
use opm_api.World.Steps.{bind-run}
use opm_api.Store.Tasks.{write_spec, move_task, approve_for_coding}
use opm_api.Store.Running.{
  View, At, Leads, view_of, Leads-pure, Leads-ignore, Leads-then, Leads-with_project,
  Leads-write_spec,
}
use opm_api.Store.Running.Moves.{moved, get_task-Leads, move_task-Leads}

pub queue_column :
    (contains board_columns (trim_space "queue") ≡ true) × (trim_space "queue" ≡ "queue")
unfolding contains trim_space
queue_column = (refl, refl)

module _ (p : Project) (s : String) (now : Time) {v : View} {w : World} {t : Task} where
  -- In a ready project the approval of a task in `human_review` succeeds: it moves the task to
  -- `queue` and marks the review as given. The approval of a task that stands elsewhere fails,
  -- and leaves what is seen of the task as it was.
  pub approve_for_coding-Leads :
      At p s v w
      → v.spec.task ≡ some t
      → (((t.status == "human_review") ≡ true)
          × (v' : View) × (v'.spec.task ≡ some (record t { status = "queue"; updated_at = now }))
          × (v'.spec.approved ≡ some true)
          × Leads p s
              (approve_for_coding now p.id s)
              w
              (record t { status = "queue"; updated_at = now })
              v')
        ⊎ (((t.status == "human_review") ≡ false)
            × (w' : World) × At p s v w'
            × (approve_for_coding now p.id s w
                ≡ (err ("task must be in human_review (got \"" <> t.status <> "\")"), w')))
  unfolding approve_for_coding
  approve_for_coding-Leads h e = elim (Bool-cases (t.status == "human_review")) [
    | inl k ↦
        let l₁ = get_task-Leads p s now h e in
        let l₂ =
          subst
            (λ c.
              Leads p s (move_task now p.id s "queue") l₁.after
                (record t { status = c; updated_at = now }) (moved now s c t v))
            queue_column.1 (move_task-Leads p s now l₁.at "queue" queue_column.0 e) in
        let l₃ = Leads-ignore p s _ (
          Leads-with_project p s now
            (λ p'. write_spec File.review_state p' s (λ d. record d { approved = some true })) l₂.at
            (Leads-write_spec p s File.review_state (λ d. record d { approved = some true })
              l₂.at)) in
        inl (
          k,
          view_of p s l₃,
          refl,
          refl,
          Leads-then p s _ _ l₁
              (rw k (Leads-then p s _ _ l₂ (Leads-then p s _ _ l₃ (Leads-pure p s l₃.at)))),
        )
    | inr k ↦
        let l₁ = get_task-Leads p s now h e in
        inr (k, l₁.after, l₁.at, bind-run _ _ l₁.runs_to ∙ rw k)
  ]
