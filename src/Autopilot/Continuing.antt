-- ===== src/Autopilot/Continuing.antt =====
-- `postImplementationJob` of impl_session.go: what follows an implementation step.
use opm_api.Prelude.{
  String, Bool, true, not, ◌&&◌, Option, none, some, List, [], ◌∷◌, ◌++◌, ◌<>◌, ◌==◌, is_empty,
  if◌then◌else◌,
}
use opm_api.Models.{Time, PlanSubtask, PlanPhase, ImplementationPlan, Job}
use opm_api.Plan.{has_pending_coding}
use opm_api.World.{Op, pure, ◌>>=◌}
use opm_api.Store.Tasks.{get_plan}
use opm_api.Runner.Pausing.{task_paused_block}
use opm_api.Autopilot.{Settings, chain_job, park_task_for_human_review}

unfoldable pub coding_subtasks : List PlanPhase → List PlanSubtask
coding_subtasks [] = []
coding_subtasks (ph ∷ rest) =
    let later = coding_subtasks rest in if ph.type == "coding" then ph.subtasks ++ later else later

unfoldable pub all_completed : List PlanSubtask → Bool
all_completed [] = true
all_completed (st ∷ rest) = st.status == "completed" && all_completed rest

unfoldable pub all_coding_subtasks_complete : ImplementationPlan → Bool
unfolding coding_subtasks all_completed
all_coding_subtasks_complete plan =
    let steps = coding_subtasks plan.phases in not (is_empty steps) && all_completed steps

module _ (cfg : Settings) (now : Time) (uuid : String) where
  -- The message, with the job that is handed to `executeJob`.
  unfoldable pub post_implementation_job : Job → Op (String × Option Job)
  unfolding has_pending_coding all_coding_subtasks_complete
  post_implementation_job j = if j.spec_id == "" then pure ("", none) else do
    plan ← get_plan now j.project_id j.spec_id
    blocked ← task_paused_block now j
    elim blocked [
      | some _ ↦ pure ("Implementation session paused — shared workspace retained.", none)
      | none ↦
          if has_pending_coding plan.phases
          then (if not cfg.auto_chain
              then pure
                  ("More coding subtasks remain — enqueue run-implementation to continue.", none)
              else do
                next ← chain_job cfg now uuid j "run-implementation"
                pure ("Chained next coding subtask (job " <> next.run_id <> ").", some next))
          else if not (all_coding_subtasks_complete plan)
          then pure ("", none)
          else do said ← park_task_for_human_review now j; pure (said, none)
    ]
