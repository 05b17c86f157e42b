-- ===== src/Autopilot/Chaining.antt =====
-- What follows planning and what follows coding, in a ready project.
use opm_api.Prelude.{
  String, Bool, true, false, ◌&&◌, Option, none, some, ◌≡◌, refl, ◌<>◌, ◌==◌, nz, subst, ◌≢◌, ap,
  ◌∙◌, Option-cases, if◌then◌else◌, arith, Bool-cases, inl, inr,
}
use opm_api.Models.{
  Time, Project, Task, human_review_required, task_autopilot, Job, job_origin_from,
}
use opm_api.Actions.{is_pause_exempt}
use opm_api.Board.{move_on_board}
use opm_api.World.{World}
use opm_api.Store.Tasks.{move_task}
use opm_api.Store.Jobs.{new_job}
use opm_api.Store.Jobs.Laws.{new_job-queued, new_job-pin}
use opm_api.Store.Running.{
  View, progress_of, At, Leads, view_of, Leads-pure, Leads-ignore, Leads-then,
  append_spec_log-Leads,
}
use opm_api.Store.Running.Moves.{moved, get_task-Leads, move_task-Leads}
use opm_api.Store.Running.Approving.{approve_for_coding-Leads}
use opm_api.Store.Running.Enqueuing.{with_run, create_job-Leads}
use opm_api.Runner.Implementing.Laws.{own, review_column}
use opm_api.Runner.Pausing.Laws.{task_paused_block-Leads}
use opm_api.Autopilot.{
  Settings, chain_job, chain_implementation, post_planning_job, park_task_for_human_review,
}
use opm_api.Autopilot.Dragging.{supported}

-- The task waits for a human to approve the plan.
unfoldable pub waits : Task → Bool
waits t = t.require_review_before_coding && t.status == "human_review"

-- A human is not wanted exactly where the task says so; where it says nothing, one is.

no_human : (t : Task) → task_autopilot t ≡ true → t.human_review_required ≡ some false
unfolding task_autopilot human_review_required
no_human t h = elim (Option-cases t.human_review_required) [
  | inl e ↦ absurd (ground (arith, rw e at h))
  | inr (b, e) ↦ e ∙ ap some (ground (arith, rw e at h))
]

needs_human : (t : Task) → task_autopilot t ≡ false → t.human_review_required ≢ some false
unfolding task_autopilot human_review_required
needs_human t h e = absurd (ground (arith, rw e at h))

-- A job that goes on for the actor of another, on the same task.
pub record Continues (j next : Job) : Type 0 where
  pub implements : next.action ≡ "run-implementation"
  pub same_task : next.spec_id ≡ j.spec_id
  pub same_actor : next.actor_username ≡ j.actor_username
  pub same_organization : next.organization_id ≡ j.organization_id
  pub queued : next.state ≡ "queued"

module _ (cfg : Settings) (q : Project) (now : Time) (uuid : String) (j : Job) where
  abbrev chained : Job
  chained =
      new_job now uuid j.project_id "run-implementation" j.spec_id
        (nz j.runner_image cfg.runner_image) (job_origin_from j)

  chained-Continues : Continues j chained
  unfolding job_origin_from
  chained-Continues =
      let image = nz j.runner_image cfg.runner_image in
      let (state, action, spec) =
        new_job-queued now uuid j.project_id "run-implementation" j.spec_id image
          (job_origin_from j) in
      let (actor, org, _, _) =
        new_job-pin now uuid j.project_id "run-implementation" j.spec_id image
          (job_origin_from j) in
      record {
        implements = action;
        same_task = spec;
        same_actor = actor;
        same_organization = org;
        queued = state;
      }

  abbrev chained_message : String
  chained_message = "Planning complete — chained run-implementation (job " <> chained.run_id <> ")."

  chain_implementation-Leads :
      {v : View} {w : World}
      → At (own q j) j.spec_id v w
      → cfg.auto_chain ≡ true
      → Leads
          (own q j)
          j.spec_id
          (chain_implementation cfg now uuid j)
          w
          (chained_message, some chained)
          (with_run chained v)
  unfolding chain_implementation chain_job
  chain_implementation-Leads h c =
      let p = own q j in
      let s = j.spec_id in
      let l =
        create_job-Leads p s now h uuid "run-implementation" s (nz j.runner_image cfg.runner_image)
          (job_origin_from j) supported.1 in
      rw (c, chain_implementation) (Leads-then p s _ _ l (Leads-pure p s l.at))

  -- How planning goes on: not at all for a paused task, and for one that waits for an approval and
  -- does not say that it needs no human; else with the implementation, and a task that waited and
  -- says that it needs no human is approved.
  pub data Planned (t : Task) (v v' : View) (next : Option Job) : Type 0 where
    halted : (progress_of v.spec).paused ≡ true → next ≡ none → v' ≡ v → Planned t v v' next
    waiting :
        (progress_of v.spec).paused ≡ false
        → waits t ≡ true
        → t.human_review_required ≢ some false
        → next ≡ none
        → v' ≡ v
        → Planned t v v' next
    approved :
        {j' : Job}
        → (progress_of v.spec).paused ≡ false
        → waits t ≡ true
        → t.human_review_required ≡ some false
        → Continues j j'
        → next ≡ some j'
        → v'.spec.task ≡ some (record t { status = "queue"; updated_at = now })
        → v'.spec.approved ≡ some true
        → Planned t v v' next
    went_on :
        {j' : Job}
        → (progress_of v.spec).paused ≡ false
        → waits t ≡ false
        → Continues j j'
        → next ≡ some j'
        → v'.spec ≡ v.spec
        → Planned t v v' next

  -- In a ready project, and where chaining is on: after planning, nothing is done for a paused task,
  -- nor for one that waits in `human_review` for its approval, unless its `humanReviewRequired` is
  -- false, which it is not where it is unset. Such a task is approved, moved to `queue` and its
  -- implementation enqueued; where no approval is waited for, the implementation is enqueued alone.
  pub post_planning_job-Planned :
      {v : View} {w : World} {t : Task}
      → At (own q j) j.spec_id v w
      → v.spec.task ≡ some t
      → (j.spec_id == "") ≡ false
      → is_pause_exempt j.action ≡ false
      → cfg.auto_chain ≡ true
      → (m : String) × (next : Option Job) × (v' : View) × Planned t v v' next
        × Leads (own q j) j.spec_id (post_planning_job cfg now uuid j) w (m, next) v'
  unfolding post_planning_job waits
  post_planning_job-Planned {v} {w} {t} h e n x c =
      let p = own q j in
      let s = j.spec_id in
      let l₁ = get_task-Leads p s now h e in
      let l₂ = task_paused_block-Leads q now j l₁.at n in
      elim (Bool-cases (progress_of v.spec).paused) [
        | inl f ↦ (
          "Planning complete — task paused; automation stopped.",
          none,
          v,
          halted f refl refl,
          rw (n, post_planning_job)
              (Leads-then p s _ _ l₁ (Leads-then p s _ _ l₂ (rw (x, f) (Leads-pure p s l₂.at)))),
        )
        | inr f ↦ elim (Bool-cases (waits t)) [
          | inr g ↦ (
            chained_message,
            some chained,
            with_run chained v,
            went_on f g chained-Continues refl refl,
            rw (n, post_planning_job)
                (Leads-then p s _ _ l₁
                  (Leads-then p s _ _ l₂ (rw (x, f) (rw g (chain_implementation-Leads l₂.at c))))),
          )
          | inl g ↦ elim (Bool-cases (task_autopilot t)) [
            | inr a ↦ (
              "Planning complete — approve for coding required before implementation.",
              none,
              v,
              waiting f g (needs_human t a) refl refl,
              rw (n, post_planning_job)
                  (Leads-then p s _ _ l₁
                    (Leads-then p s _ _ l₂ (rw (x, f) (rw (g, a) (Leads-pure p s l₂.at))))),
            )
            | inl a ↦ elim (approve_for_coding-Leads p s now l₂.at e) [
              | inr (k, _, _, _) ↦ absurd (ground (arith, g, k))
              | inl (k, v₃, task, given, l₃) ↦
                  let line = "[" <> j.run_id <> "] auto-approved for coding after planning\n" in
                  let l₄ =
                    Leads-ignore p s _ (append_spec_log-Leads p s now l₃.at "planning" line) in
                  let l₅ = chain_implementation-Leads l₄.at c in
                  (
                    chained_message,
                    some chained,
                    view_of p s l₅,
                    approved f g (no_human t a) chained-Continues refl task given,
                    rw (n, post_planning_job)
                        (Leads-then p s _ _ l₁ (
                          Leads-then p s _ _ l₂ (
                            rw (x, f)
                              (rw (g, a) (Leads-then p s _ _ l₃ (Leads-then p s _ _ l₄ l₅)))))),
                  )
            ]
          ]
        ]
      ]

-- In a ready project, after coding, a paused task stays where it is. Any other is moved to `review`,
-- off every other column.
park_task_for_human_review-Leads :
    (q : Project) (now : Time) (j : Job) {v : View} {w : World} {t : Task}
    → At (own q j) j.spec_id v w
    → v.spec.task ≡ some t
    → (j.spec_id == "") ≡ false
    → is_pause_exempt j.action ≡ false
    → (m : String) × (v' : View) × (v'.spec.task ≡ (
        if (progress_of v.spec).paused
        then some t
        else some (record t { status = "review"; updated_at = now })))
      × (v'.board ≡ (
          if (progress_of v.spec).paused
          then v.board
          else move_on_board j.spec_id "review" v.board))
      × Leads (own q j) j.spec_id (park_task_for_human_review now j) w m v'
unfolding park_task_for_human_review
park_task_for_human_review-Leads q now j {v} {w} {t} h e n x =
    let p = own q j in
    let s = j.spec_id in
    let l₁ = task_paused_block-Leads q now j h n in
    elim (Bool-cases (progress_of v.spec).paused) [
      | inl f ↦ (
        "Coding complete — task paused; shared workspace retained.",
        v,
        rw f e,
        rw f refl,
        rw (n, park_task_for_human_review)
            (Leads-then p s _ _ l₁ (rw (x, f) (Leads-pure p s l₁.at))),
      )
      | inr f ↦
          let l₂ =
            subst
              (λ c.
                Leads p s (move_task now p.id s "review") l₁.after
                  (record t { status = c; updated_at = now }) (moved now s c t v))
              review_column.1 (move_task-Leads p s now l₁.at "review" review_column.0 e) in
          let line = "[" <> j.run_id <> "] coding complete → review (human approve/deliver)\n" in
          let l₃ = Leads-ignore p s _ (append_spec_log-Leads p s now l₂.at "implementation" line) in
          (
            "All coding subtasks complete — parked in review for human approve/deliver.",
            view_of p s l₃,
            rw f refl,
            rw f refl,
            rw (n, park_task_for_human_review)
                (Leads-then p s _ _ l₁ (
                  rw (x, f)
                    (Leads-then p s _ _ l₂ (Leads-then p s _ _ l₃ (Leads-pure p s l₃.at))))),
          )
    ]
