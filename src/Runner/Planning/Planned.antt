-- ===== src/Runner/Planning/Planned.antt =====
-- What planning leaves, told without the code's plan, text and column.
use opm_api.Prelude.{
  ◌<◌, String, true, false, none, some, List, [], ◌∷◌, ◌++◌, ◌<>◌, ◌==◌, ◌≡◌, refl, ap, ◌∙◌, ◌⊎◌,
  eq_iff, arith, map, nz, is_empty, contains, if◌then◌else◌, Bool-cases, inl, inr,
}
use opm_api.Models.{
  Time, Project, board_columns, Task, PlanPhase, ImplementationPlan, TaskProgress, Job,
}
use opm_api.Plan.{is_pending, count_subtasks, count_plan_subtasks, count_pending_subtasks}
use opm_api.Board.Laws.{others, move_on_board-column}
use opm_api.World.{World}
use opm_api.Store.Running.{View, At, Leads}
use opm_api.Runner.Implementing.Laws.{own}
use opm_api.Runner.Planning.{
  spec_text, default_phases, default_plan, followed_up, planned_progress, builtin_planning,
}
use opm_api.Runner.Planning.Laws.{plan_of, plan_for, builtin_planning-Plans}

-- The plan goes on from the phases that were stored: one more, with work, is put behind them.
pub record Continued (old new : List PlanPhase) : Type 0 where
  pub phase : PlanPhase
  pub kept : new ≡ old ++ phase ∷ []
  pub work : count_subtasks is_pending phase.subtasks ≡ 1

-- The plan that is stored: for a follow-up on stored phases these and one more, else three new ones.
pub data Chosen (j : Job) (old new : ImplementationPlan) : Type 0 where
  follows :
      j.action ≡ "run-followup-planning"
      → is_empty old.phases ≡ false
      → Continued old.phases new.phases
      → new.feature ≡ old.feature
      → Chosen j old new
  starts :
      ((j.action == "run-followup-planning") ≡ false) ⊎ (is_empty old.phases ≡ true)
      → map (λ ph. ph.name) new.phases ≡ "Design" ∷ "Implement" ∷ "Review" ∷ []
      → Chosen j old new

plan_for-Chosen : (j : Job) (t : Task) (old : ImplementationPlan) → Chosen j old (plan_for j t old)
unfolding plan_for followed_up default_plan default_phases count_subtasks is_pending
plan_for-Chosen j t old = elim (Bool-cases (j.action == "run-followup-planning")) [
  | inr e ↦ rw e (starts (inl e) refl)
  | inl e ↦ elim (Bool-cases (is_empty old.phases)) [
    | inl f ↦ rw (e, f) (starts (inr f) refl)
    | inr f ↦
        rw (e, f)
          (follows ((eq_iff j.action "run-followup-planning").0 e) f
            (record { phase = _; kept = refl; work = omega arith }) refl)
  ]
]

plan_for-ready :
    (j : Job) (t : Task) (old : ImplementationPlan)
    → ((plan_for j t old).status ≡ "ready") × ((plan_for j t old).plan_status ≡ "ready")
unfolding plan_for followed_up default_plan
plan_for-ready j t old = elim (Bool-cases (j.action == "run-followup-planning")) [
  | inr e ↦ rw e (refl, refl)
  | inl e ↦ elim (Bool-cases (is_empty old.phases)) [
    | inl f ↦ rw (e, f) (refl, refl)
    | inr f ↦ rw (e, f) (refl, refl)
  ]
]

-- The column that a planned task goes to.
abbrev pub review_or_queue : Task → String
review_or_queue t = if t.require_review_before_coding then "human_review" else "queue"

review_or_queue-column : (t : Task) → contains board_columns (review_or_queue t) ≡ true
unfolding contains
review_or_queue-column t = elim (Bool-cases t.require_review_before_coding) [
  | inl e ↦ rw e refl
  | inr e ↦ rw e refl
]

module _ (q : Project) (now : Time) (j : Job) where
  -- What planning leaves of a task `t`.
  pub record IsPlanned (t : Task) (v v' : View) : Type 0 where
    pub stored_task :
        v'.spec.task
        ≡ some (record t {
          status = if t.require_review_before_coding then "human_review" else "queue";
          updated_at = now;
        })
    pub plan : ImplementationPlan
    pub stored_plan : v'.spec.plan ≡ some plan
    pub chosen : Chosen j (plan_of v) plan
    pub ready : (plan.status ≡ "ready") × (plan.plan_status ≡ "ready")
    pub some_work : 0 < count_pending_subtasks plan
    pub progress : TaskProgress
    pub stored_progress : v'.spec.progress ≡ some progress
    pub idle : (progress.is_running ≡ false) × (progress.paused ≡ false)
    pub counted :
        (progress.subtask_total ≡ (count_plan_subtasks plan).0)
        × (progress.subtask_completed ≡ (count_plan_subtasks plan).1)
    pub rest : String
    pub stored_text :
        v'.spec.spec_md
        ≡ some (
            "# "
            <> t.title
            <> "\n\n## Summary\n\n"
            <> nz t.description "_No description provided._"
            <> rest)
    pub column :
        (c : String)
        → contains board_columns c ≡ true
        → v'.board c
          ≡ others j.spec_id (v.board c)
            ++ (if c == (if t.require_review_before_coding then "human_review" else "queue")
                then j.spec_id ∷ []
                else [])
    pub same_runs : v'.runs ≡ v.runs
    pub same_approved : v'.spec.approved ≡ v.spec.approved

  -- In a ready project, planning succeeds. It writes the specification, with title and description,
  -- and a plan that is ready and has something to implement: for a follow-up on stored phases these
  -- and one more, else the three phases Design, Implement and Review. The progress counts that plan's
  -- subtasks and is neither running nor paused. The task goes to the end of `human_review` if its
  -- coding wants a review, and else of `queue`, with that status, and off every other column of the
  -- workflow.
  pub builtin_planning-IsPlanned :
      {v : View} {w : World} {t : Task}
      → At (own q j) j.spec_id v w
      → (j.spec_id == "") ≡ false
      → v.spec.task ≡ some t
      → (message : String) × (v' : View) × IsPlanned t v v'
        × Leads
            (own q j)
            j.spec_id
            (builtin_planning now j)
            w
            (record { message = message; error = none })
            v'
  unfolding planned_progress spec_text
  builtin_planning-IsPlanned {v} {w} {t} h n e =
      let (v', s, l) = builtin_planning-Plans q now j h n e in
      let plan = plan_for j t (plan_of v) in
      (
        _,
        v',
        record {
          stored_task = s.stored_task;
          plan = plan;
          stored_plan = s.stored_plan;
          chosen = plan_for-Chosen j t (plan_of v);
          ready = plan_for-ready j t (plan_of v);
          some_work = s.some_work;
          progress = planned_progress now j plan;
          stored_progress = s.stored_progress;
          idle = (refl, refl);
          counted = (refl, refl);
          rest = _;
          stored_text = s.stored_text;
          column = λ c k.
              ap (λ b. b c) s.moved_on_board
              ∙ move_on_board-column j.spec_id (review_or_queue t) v.board c
                  (review_or_queue-column t) k;
          same_runs = s.same_runs;
          same_approved = s.same_approved;
        },
        l,
      )
