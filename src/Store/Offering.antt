-- ===== src/Store/Offering.antt =====
-- `GetTaskValidActions` of store.go: the actions that the board may offer for a task.
pub mod Laws
use opm_api.Prelude.{
  ℕ, String, Bool, true, false, not, ◌&&◌, ◌||◌, Option, none, some, ◌==◌, contains, is_empty,
  length, List, [], ◌∷◌, ltb, nat_eq, if◌then◌else◌,
}
use opm_api.Models.{Time, Task, ImplementationPlan, TaskProgress}
use opm_api.Plan.{count_stuck_or_failed}
use opm_api.World.{Op, pure, value_or, ◌>>=◌}
use opm_api.Runner.{plan_or_none, progress_or_none}
use opm_api.World.Layout.{with_project}
use opm_api.Store.Tasks.{get_task, read_spec}

pub record TaskValidActions : Type 0 where
  pub planning : Bool
  pub implementation : Bool
  pub review : Bool
  pub qa_fix : Bool
  pub approve : Bool
  pub followup_planning : Bool
  pub generate_changelog : Bool
  pub recover : Bool
  pub mark_stuck : Bool
  pub pause : Bool
  pub resume : Bool
  pub skip_to_phase : Bool
  pub pipeline : Bool

-- Whether the status is one of these.
abbrev pub stands_in : List String → Task → Bool
stands_in columns t = contains columns t.status

unfoldable pub has_a_plan : ImplementationPlan → Bool
has_a_plan plan =
    not (is_empty plan.phases)
    || not (plan.plan_status == "") && not (plan.plan_status == "drafted")

-- What is offered, once everything is read.
unfoldable pub offered : Bool → Task → ImplementationPlan → TaskProgress → TaskValidActions
unfolding contains
offered approved t plan prog =
    let going = not prog.paused in
    let planned = has_a_plan plan in
    let stuck = count_stuck_or_failed plan in
    record {
      planning = going && stands_in ("backlog" ∷ "queue" ∷ "human_review" ∷ []) t;
      implementation = going && stands_in ("queue" ∷ "in_progress" ∷ []) t && approved;
      review = false;
      qa_fix = false;
      approve = t.status == "human_review";
      followup_planning =
          going && planned && stands_in ("queue" ∷ "in_progress" ∷ "review" ∷ "done" ∷ []) t;
      generate_changelog = true;
      recover =
          planned
          && (ltb 0 stuck
              || not (prog.stuck_subtask_id == "")
              || stands_in ("in_progress" ∷ "review" ∷ []) t);
      mark_stuck =
          going
          && planned
          && stands_in ("queue" ∷ "in_progress" ∷ "review" ∷ []) t
          && nat_eq stuck 0;
      pause = going && planned && stands_in ("queue" ∷ "in_progress" ∷ "review" ∷ []) t;
      resume = prog.paused;
      skip_to_phase =
          going
          && planned
          && ltb 1 (length plan.phases)
          && stands_in ("queue" ∷ "in_progress" ∷ "review" ∷ []) t;
      pipeline =
          going
          && stands_in ("backlog" ∷ "queue" ∷ "in_progress" ∷ "review" ∷ "human_review" ∷ []) t;
    }

-- Whether the coding of the task is approved, or needs no approval.
unfoldable pub coding_approved : Time → String → String → Task → Op Bool
coding_approved now project_id spec_id t =
    if t.require_review_before_coding
    then value_or false (with_project now project_id (λ p. read_spec (λ d. d.approved) p spec_id))
    else pure true

unfoldable pub get_task_valid_actions : Time → String → String → Op TaskValidActions
get_task_valid_actions now project_id spec_id = do
  t ← get_task now project_id spec_id
  plan ← plan_or_none now project_id spec_id
  prog ← progress_or_none now project_id spec_id
  approved ← coding_approved now project_id spec_id t
  pure (offered approved t plan prog)
