-- ===== src/Runner/Planning/Laws.antt =====
-- What planning stores in a ready project.
use opm_api.Prelude.{
  ◌+◌, ◌<◌, String, Bool, true, false, none, some, List, [], ◌∷◌, ◌++◌, ◌==◌, ◌≡◌, refl, sym, ◌∙◌,
  is_empty, err, arith, contains, trim_space, subst, if◌then◌else◌, Bool-cases, Option-cases, inl,
  inr,
}
use opm_api.Models.{Time, Project, board_columns, Task, PlanPhase, ImplementationPlan, Job}
use opm_api.Plan.{is_pending, count_subtasks, count_phases, count_pending_subtasks}
use opm_api.Board.{move_on_board}
use opm_api.World.{File, World, SpecDir, value_or}
use opm_api.World.Ready.{with_project-ready}
use opm_api.Store.Tasks.{
  no_such_file, read, read_spec, get_plan, put_spec_markdown, move_task, write_spec_file,
}
use opm_api.Store.Running.{
  View, At, Leads, view_of, Leads-pure, Leads-ignore, Leads-value_or, Leads-try, Leads-then,
  Leads-with_project, get_plan-Leads, put_plan-Leads, put_progress-Leads, append_spec_log-Leads,
}
use opm_api.Store.Running.Approving.{queue_column}
use opm_api.Store.Running.Moves.{moved, get_task-Leads, move_task-Leads, write_spec_file-Leads}
use opm_api.Runner.{no_plan, plan_or_none}
use opm_api.Runner.Implementing.Laws.{own}
use opm_api.Runner.Planning.{
  spec_text, default_phases, default_plan, followed_up, chosen_plan, planned_progress,
  planned_column, planned_message, planned_line, store_plan, builtin_planning,
}

abbrev pub plan_of : View → ImplementationPlan
plan_of v = elim v.spec.plan [ none ↦ no_plan | some plan ↦ plan ]

-- A plan that is not there reads as the empty plan.
pub plan_or_none-Leads :
    (p : Project) (s : String) (now : Time) {v : View} {w : World}
    → At p s v w
    → Leads p s (plan_or_none now p.id s) w (plan_of v) v
unfolding value_or get_plan read_spec read
plan_or_none-Leads p s now {v} {w} h = elim (Option-cases v.spec.plan) [
  | inr (plan, e) ↦
      let same : plan_of v ≡ plan = rw e refl in
      subst (λ x. Leads p s (plan_or_none now p.id s) w x v) (sym same)
        (Leads-value_or p s no_plan _ (get_plan-Leads p s now h e))
  | inl e ↦
      let same : plan_of v ≡ no_plan = rw e refl in
      subst (λ x. Leads p s (plan_or_none now p.id s) w x v) (sym same)
        (record { after = w; runs_to = rw (missing e) refl; at = h })
]
  where
    missing : v.spec.plan ≡ none → get_plan now p.id s w ≡ (err no_such_file, w)
    missing e =
        with_project-ready h.ready now (λ q. read_spec (λ d. d.plan) q s)
        ∙ rw (h.same_spec, read) (rw e refl)

-- The plan that is chosen for a task, as far as can be seen.
unfoldable pub plan_for : Job → Task → ImplementationPlan → ImplementationPlan
plan_for j task existing =
    if j.action == "run-followup-planning"
    then (if is_empty existing.phases then default_plan task else followed_up existing)
    else default_plan task

count_phases-append :
    (p : String → Bool) (xs ys : List PlanPhase)
    → count_phases p (xs ++ ys) ≡ count_phases p xs + count_phases p ys
unfolding count_phases
count_phases-append p [] ys = omega arith
count_phases-append p (x ∷ xs) ys = omega (arith, count_phases-append p xs ys)

-- There is something to implement, whichever plan is chosen.
plan_for-pending :
    (j : Job) (task : Task) (existing : ImplementationPlan)
    → 0 < count_pending_subtasks (plan_for j task existing)
unfolding plan_for count_pending_subtasks followed_up default_plan default_phases count_phases
    count_subtasks is_pending
plan_for-pending j task existing = elim (Bool-cases (j.action == "run-followup-planning")) [
  | inr e ↦ rw e (omega arith)
  | inl e ↦ elim (Bool-cases (is_empty existing.phases)) [
    | inl f ↦ rw (e, f) (omega arith)
    | inr f ↦ rw (e, f) (omega (arith, count_phases-append is_pending existing.phases _))
  ]
]

human_review_column :
    (contains board_columns (trim_space "human_review") ≡ true)
    × (trim_space "human_review" ≡ "human_review")
unfolding contains trim_space
human_review_column = (refl, refl)

module _ (q : Project) (now : Time) (j : Job) where
  -- The move to the column that planning ends in.
  planned-Leads :
      {v : View} {w : World} {t : Task} (task : Task)
      → At (own q j) j.spec_id v w
      → v.spec.task ≡ some t
      → Leads
          (own q j)
          j.spec_id
          (move_task now j.project_id j.spec_id (planned_column now j task))
          w
          (record t { status = planned_column now j task; updated_at = now })
          (moved now j.spec_id (planned_column now j task) t v)
  planned-Leads {v} {w} {t} task h e = elim (Bool-cases task.require_review_before_coding) [
    | inl k ↦ rw k (to "human_review" human_review_column)
    | inr k ↦ rw k (to "queue" queue_column)
  ]
    where
      to :
          (c : String)
          → (contains board_columns (trim_space c) ≡ true) × (trim_space c ≡ c)
          → Leads
              (own q j)
              j.spec_id
              (move_task now j.project_id j.spec_id c)
              w
              (record t { status = c; updated_at = now })
              (moved now j.spec_id c t v)
      to c (known, same) =
          subst
            (λ x.
              Leads (own q j) j.spec_id (move_task now j.project_id j.spec_id c) w
                (record t { status = x; updated_at = now }) (moved now j.spec_id x t v))
            same (move_task-Leads (own q j) j.spec_id now h c known e)

  chosen_plan-Leads :
      {v : View} {w : World} (task : Task)
      → At (own q j) j.spec_id v w
      → Leads (own q j) j.spec_id (chosen_plan now j task) w (plan_for j task (plan_of v)) v
  unfolding chosen_plan plan_for
  chosen_plan-Leads {v} {w} task h = elim (Bool-cases (j.action == "run-followup-planning")) [
    | inr e ↦ rw (e, chosen_plan, plan_for) (Leads-pure (own q j) j.spec_id h)
    | inl e ↦
        let l = plan_or_none-Leads (own q j) j.spec_id now h in
        rw (e, chosen_plan, plan_for)
          (Leads-then (own q j) j.spec_id _ _ l (Leads-pure (own q j) j.spec_id l.at))
  ]

  -- What planning leaves of a task `t`, with the plan and the column that the code makes.
  pub record Plans (t : Task) (v v' : View) : Type 0 where
    pub stored_task :
        v'.spec.task ≡ some (record t { status = planned_column now j t; updated_at = now })
    pub stored_plan : v'.spec.plan ≡ some (plan_for j t (plan_of v))
    pub some_work : 0 < count_pending_subtasks (plan_for j t (plan_of v))
    pub stored_progress :
        v'.spec.progress ≡ some (planned_progress now j (plan_for j t (plan_of v)))
    pub stored_text : v'.spec.spec_md ≡ some (spec_text j t)
    pub moved_on_board : v'.board ≡ move_on_board j.spec_id (planned_column now j t) v.board
    pub same_runs : v'.runs ≡ v.runs
    pub same_approved : v'.spec.approved ≡ v.spec.approved

  -- Planning, with the plan that the code makes.
  pub builtin_planning-Plans :
      {v : View} {w : World} {t : Task}
      → At (own q j) j.spec_id v w
      → (j.spec_id == "") ≡ false
      → v.spec.task ≡ some t
      → (v' : View) × Plans t v v'
        × Leads
            (own q j)
            j.spec_id
            (builtin_planning now j)
            w
            (record { message = planned_message now j t; error = none })
            v'
  unfolding builtin_planning store_plan put_spec_markdown
  builtin_planning-Plans {v} {w} {t} h n e =
      let p = own q j in
      let s = j.spec_id in
      let plan = plan_for j t (plan_of v) in
      let l₁ = Leads-try p s _ (get_task-Leads p s now h e) in
      let written : SpecDir → SpecDir = λ d. record d { spec_md = some (spec_text j t) } in
      let l₂ = Leads-try p s _ (
        Leads-with_project p s now (λ p'. write_spec_file File.spec_md p' s written) l₁.at
          (write_spec_file-Leads p s File.spec_md written l₁.at e)) in
      let l₃ = chosen_plan-Leads t l₂.at in
      let l₄ = Leads-try p s _ (put_plan-Leads p s now l₃.at plan) in
      let l₅ =
        Leads-ignore p s _ (put_progress-Leads p s now l₄.at (planned_progress now j plan)) in
      let l₆ =
        Leads-ignore p s _
          (append_spec_log-Leads p s now l₅.at "planning" (planned_line now j plan)) in
      let l₇ = Leads-try p s _ (planned-Leads t l₆.at e) in
      (
        view_of p s l₇,
        record {
          stored_task = refl;
          stored_plan = refl;
          some_work = plan_for-pending j t (plan_of v);
          stored_progress = refl;
          stored_text = refl;
          moved_on_board = refl;
          same_runs = refl;
          same_approved = refl;
        },
        rw (n, builtin_planning)
            (Leads-then p s _ _ l₁ (
              Leads-then p s _ _ l₂ (
                Leads-then p s _ _ l₃ (
                  Leads-then p s _ _ l₄ (
                    Leads-then p s _ _ l₅
                      (Leads-then p s _ _ l₆ (Leads-then p s _ _ l₇ (Leads-pure p s l₇.at)))))))),
      )
