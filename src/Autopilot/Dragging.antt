-- ===== src/Autopilot/Dragging.antt =====
-- What a drag of a card starts, and that a second one starts nothing.
use opm_api.Prelude.{
  String, Bool, true, false, ◌&&◌, Option, none, some, List, [], ◌∷◌, Dict, ok, ◌≡◌, refl, ◌==◌,
  map, insert, trim_space, to_lower, if◌then◌else◌, arith, eq_refl, Bool-cases, Option-cases, inl,
  inr, ◌<>◌,
}
use opm_api.Models.{Time, Project, auto_start_on_move, Task, Job, JobOrigin}
use opm_api.Actions.{column_job_action, job_is_active, unsupported_review_action}
use opm_api.World.{World}
use opm_api.Store.Jobs.{new_job}
use opm_api.Store.Jobs.Laws.{new_job-queued}
use opm_api.Store.Running.{
  View, progress_of, At, Leads, Leads-pure, Leads-ignore, Leads-attempt, Leads-try, Leads-then,
  get_progress-Leads,
}
use opm_api.Store.Running.Enqueuing.{with_run, list_jobs-Leads, update_job-Leads, create_job-Leads}
use opm_api.Autopilot.{
  Settings, BoardTriggerOutcome, not_started, first_active, paused_reason, active_message,
  board_trigger_blocked, start_for_column, maybe_start_job_for_column,
}

abbrev jobs_of : View → List Job
jobs_of v = map (λ e. e.1) v.runs

-- A job of the spec that is active.
unfoldable pub owns : String → Job → Bool
owns spec_id j = j.spec_id == spec_id && job_is_active j.state

unfoldable pub any_owns : String → List Job → Bool
any_owns spec_id [] = false
any_owns spec_id (j ∷ js) = if owns spec_id j then true else any_owns spec_id js

first_active-owns :
    (spec_id : String) (js : List Job)
    → any_owns spec_id js ≡ elim (first_active spec_id js) [ none ↦ false | some _ ↦ true ]
unfolding any_owns first_active owns
first_active-owns spec_id [] = refl
first_active-owns spec_id (j ∷ js) = ground (arith, first_active-owns spec_id js)

-- A written job that owns the spec is found.
any_owns-insert :
    (spec_id name : String) (j : Job) (runs : Dict Job)
    → owns spec_id j ≡ true
    → any_owns spec_id (map (λ e. e.1) (insert name j runs)) ≡ true
unfolding any_owns insert
any_owns-insert spec_id name j [] h = ground (arith, h)
any_owns-insert spec_id name j ((first, old) ∷ rest) h =
    ground (arith, any_owns-insert spec_id name j rest, h)

-- Why a drag of the task starts nothing, as far as can be seen.
unfoldable pub drag_block : String → View → Option String
drag_block spec_id v =
    if (progress_of v.spec).paused
    then some paused_reason
    else elim (first_active spec_id (jobs_of v)) [ none ↦ none | some j ↦ some (active_message j) ]

-- The task is paused, or one of its jobs is active.
unfoldable pub is_busy : String → View → Bool
is_busy spec_id v = if (progress_of v.spec).paused then true else any_owns spec_id (jobs_of v)

drag_block-is_busy :
    (spec_id : String) (v : View)
    → is_busy spec_id v ≡ elim (drag_block spec_id v) [ none ↦ false | some _ ↦ true ]
unfolding drag_block is_busy
drag_block-is_busy spec_id v = ground (arith, first_active-owns spec_id (jobs_of v))

module _ (p : Project) (t : Task) (now : Time) {v : View} {w : World} (h : At p t.spec_id v w) where
  board_trigger_blocked-Leads :
      Leads p t.spec_id (board_trigger_blocked now p t) w (drag_block t.spec_id v) v
  unfolding board_trigger_blocked drag_block
  board_trigger_blocked-Leads =
      let s = t.spec_id in
      let l₁ = Leads-attempt p s _ (get_progress-Leads p s now h) in
      elim (Bool-cases (progress_of v.spec).paused) [
        | inl e ↦ rw (e, drag_block) (Leads-then p s _ _ l₁ (rw e (Leads-pure p s l₁.at)))
        | inr e ↦
            let l₂ = Leads-try p s _ (list_jobs-Leads p s now l₁.at) in
            rw (e, drag_block)
              (elim (Option-cases (first_active s (jobs_of v))) [
                | inl f ↦ rw f (
                    Leads-then p s _ _ l₁
                      (rw e (Leads-then p s _ _ l₂ (rw f (Leads-pure p s l₂.at)))))
                | inr (j, f) ↦ rw f (
                    Leads-then p s _ _ l₁
                      (rw e (Leads-then p s _ _ l₂ (rw f (Leads-pure p s l₂.at)))))
              ])
      ]

-- The two actions that a drag starts are no retired ones.
pub supported :
    (unsupported_review_action "run-planning" ≡ none)
    × (unsupported_review_action "run-implementation" ≡ none)
unfolding unsupported_review_action to_lower trim_space
supported = (refl, refl)

column_job_action-supported :
    (column : String) {action : String}
    → column_job_action column ≡ some action
    → unsupported_review_action action ≡ none
unfolding column_job_action
column_job_action-supported column {action} e = elim (Bool-cases (column == "queue")) [
  | inl q ↦ let k : action ≡ "run-planning" = ground (arith, e, q) in rw k supported.0
  | inr q ↦ let k : action ≡ "run-implementation" = ground (arith, e, q) in rw k supported.1
]

module _ (cfg : Settings) (p : Project) (t : Task) (now : Time) (uuid : String)
    (actor : JobOrigin) where
  -- The job that a drag to a column starts.
  abbrev dragged : String → Job
  dragged action = record (new_job now uuid p.id action t.spec_id cfg.runner_image actor) {
    execution = "container";
    message = "Queued by board move to " <> trim_space t.status <> ".";
  }

  -- What is seen after it.
  abbrev after_drag : String → View → View
  after_drag action v =
      with_run (record (dragged action) { updated_at = now })
        (with_run (new_job now uuid p.id action t.spec_id cfg.runner_image actor) v)

  start_for_column-Leads :
      {action : String} {v : View} {w : World}
      → At p t.spec_id v w
      → unsupported_review_action action ≡ none
      → Leads p t.spec_id
          (start_for_column cfg now uuid p t (trim_space t.status) action actor)
          w
          (
            record {
              started = true;
              action = action;
              run_id = (dragged action).run_id;
              reason = "board move to " <> trim_space t.status <> " started " <> action;
            },
            some (dragged action),
          )
          (after_drag action v)
  unfolding start_for_column
  start_for_column-Leads {action} {v} h e =
      let s = t.spec_id in
      let l₁ =
        Leads-try p s _ (create_job-Leads p s now h uuid action s cfg.runner_image actor e) in
      let l₂ = Leads-ignore p s _ (update_job-Leads p s now l₁.at (dragged action)) in
      Leads-then p s _ _ l₁ (Leads-then p s _ _ l₂ (Leads-pure p s l₂.at))

  -- In a ready project, a drag of a task that is not busy to a column with an action starts a job
  -- with that action, where the project lets it.
  maybe_start-Leads :
      {action : String} {v : View} {w : World}
      → At p t.spec_id v w
      → column_job_action (trim_space t.status) ≡ some action
      → auto_start_on_move p ≡ true
      → (trim_space t.spec_id == "") ≡ false
      → is_busy t.spec_id v ≡ false
      → Leads p t.spec_id
          (maybe_start_job_for_column cfg now uuid p t actor)
          w
          (
            record {
              started = true;
              action = action;
              run_id = (dragged action).run_id;
              reason = "board move to " <> trim_space t.status <> " started " <> action;
            },
            some (dragged action),
          )
          (after_drag action v)
  unfolding maybe_start_job_for_column
  maybe_start-Leads {action} {v} h e a n b =
      let s = t.spec_id in
      let f : drag_block s v ≡ none = elim (Option-cases (drag_block s v)) [
        | inl f ↦ f
        | inr (r, f) ↦ absurd (ground (arith, drag_block-is_busy s v, f, b))
      ] in
      rw (e, maybe_start_job_for_column)
        (rw (a, n)
          (let l₁ = board_trigger_blocked-Leads p t now h in
            Leads-then p s _ _ l₁ (
              rw f (
                start_for_column-Leads l₁.at
                  (column_job_action-supported (trim_space t.status) e)))))

  -- A drag of a busy task starts nothing.
  maybe_start-busy :
      {v : View} {w : World}
      → At p t.spec_id v w
      → is_busy t.spec_id v ≡ true
      → (reason : String) × Leads p t.spec_id
          (maybe_start_job_for_column cfg now uuid p t actor)
          w
          (not_started reason, none)
          v
  unfolding maybe_start_job_for_column
  maybe_start-busy {v} h b =
      let s = t.spec_id in
      let column = trim_space t.status in
      elim (Option-cases (column_job_action column)) [
        | inl e ↦ (
          "column \"" <> column <> "\" starts no job",
          rw (e, maybe_start_job_for_column) (Leads-pure p s h),
        )
        | inr (action, e) ↦ elim (Bool-cases (auto_start_on_move p)) [
          | inr a ↦ (
            "autoStartOnMove is off for this project",
            rw (e, maybe_start_job_for_column) (rw a (Leads-pure p s h)),
          )
          | inl a ↦ elim (Bool-cases (trim_space s == "")) [
            | inl n ↦ (
              "task has no spec",
              rw (e, maybe_start_job_for_column) (rw (a, n) (Leads-pure p s h)),
            )
            | inr n ↦ elim (Option-cases (drag_block s v)) [
              | inl f ↦ absurd (ground (arith, drag_block-is_busy s v, f, b))
              | inr (r, f) ↦
                  let l₁ = board_trigger_blocked-Leads p t now h in
                  (
                    r,
                    rw (e, maybe_start_job_for_column)
                        (rw (a, n) (Leads-then p s _ _ l₁ (rw f (Leads-pure p s l₁.at)))),
                  )
            ]
          ]
        ]
      ]

  -- The started job is active.
  dragged-owns :
      (action : String) → owns t.spec_id (record (dragged action) { updated_at = now }) ≡ true
  unfolding owns job_is_active to_lower trim_space
  dragged-owns action =
      let (q, a, s) = new_job-queued now uuid p.id action t.spec_id cfg.runner_image actor in
      rw (s, q, eq_refl t.spec_id) refl

  after_drag-is_busy : (action : String) (v : View) → is_busy t.spec_id (after_drag action v) ≡ true
  unfolding is_busy
  after_drag-is_busy action v = ground (
    arith,
    any_owns-insert t.spec_id (dragged action).run_id (record (dragged action) { updated_at = now })
        (with_run (new_job now uuid p.id action t.spec_id cfg.runner_image actor) v).runs
        (dragged-owns action),
  )

-- In a ready project, a drag of a task that is not paused and has no active job, to a column with an
-- action, starts one job with that action on the task, where the project lets it. A second drag of the
-- task in the state right after it, while that job is still queued, starts nothing, to whatever
-- column and by whomever it is dragged.
pub maybe_start-once :
    (cfg : Settings) (p : Project) (t : Task) (now now' : Time) (uuid uuid' : String)
    (actor actor' : JobOrigin) (column' : String) {action : String} {v : View} {w : World}
    → At p t.spec_id v w
    → column_job_action (trim_space t.status) ≡ some action
    → auto_start_on_move p ≡ true
    → (trim_space t.spec_id == "") ≡ false
    → is_busy t.spec_id v ≡ false
    → (j : Job) × (out : BoardTriggerOutcome) × (w₁ : World) × (w₂ : World) × (reason : String)
      × (maybe_start_job_for_column cfg now uuid p t actor w ≡ (ok (out, some j), w₁))
      × (out.started ≡ true)
      × (j.action ≡ action)
      × (j.spec_id ≡ t.spec_id)
      × (maybe_start_job_for_column cfg now' uuid' p (record t { status = column' }) actor' w₁
          ≡ (ok (not_started reason, none), w₂))
maybe_start-once cfg p t now now' uuid uuid' actor actor' column' {action} {v} h e a n b =
    let l₁ = maybe_start-Leads cfg p t now uuid actor h e a n b in
    let busy = after_drag-is_busy cfg p t now uuid actor action v in
    let (reason, l₂) =
      maybe_start-busy cfg p (record t { status = column' }) now' uuid' actor' l₁.at busy in
    (
      dragged cfg p t now uuid actor action,
      _,
      l₁.after,
      l₂.after,
      reason,
      l₁.runs_to,
      refl,
      (new_job-queued now uuid p.id action t.spec_id cfg.runner_image actor).1,
      (new_job-queued now uuid p.id action t.spec_id cfg.runner_image actor).2,
      l₂.runs_to,
    )
