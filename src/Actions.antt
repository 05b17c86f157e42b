-- ===== src/Actions.antt =====
-- The tables over job actions: agent_keys.go, `mapActionToState` of store.go,
-- `unsupportedReviewAction` of autopilot.go, `usesTaskWorkspace` of task_workspace.go,
-- `columnJobAction` and `jobIsActive` of board_triggers.go, and the exempt actions of
-- `taskPausedBlock` and `markJobCancelledStuck` of job_runner.go.
use opm_api.Prelude.{
  String, Bool, ◌||◌, Option, none, some, List, [], ◌∷◌, ◌==◌, ◌<>◌, contains, trim_space, to_lower,
  if◌then◌else◌,
}

-- The key of the agent that an action runs, "" for an action with no AI phase.
unfoldable pub agent_key_for_action : String → String
agent_key_for_action action =
    let a = to_lower (trim_space action) in
    if a == "run-planning" || a == "run-followup-planning"
    then "planning"
    else if a == "run-implementation"
    then "coding"
    else if a == "run-ideation"
    then "ideation"
    else if a == "run-roadmap-discovery"
    then "roadmap_discovery"
    else if a == "run-roadmap-features"
    then "roadmap_features"
    else if a == "run-roadmap-competitor"
    then "roadmap_competitor"
    else ""

pub record AgentCatalogEntry : Type 0 where
  pub agent_key : String
  pub label : String
  pub tier_hint : String

unfoldable pub agent_catalog : List AgentCatalogEntry
agent_catalog =
    record { agent_key = "planning"; label = "Planning"; tier_hint = "light" }
    ∷ record { agent_key = "coding"; label = "Implementation"; tier_hint = "strong" }
    ∷ record { agent_key = "ideation"; label = "Ideation"; tier_hint = "light" }
    ∷ record { agent_key = "roadmap_discovery"; label = "Roadmap discovery"; tier_hint = "light" }
    ∷ record { agent_key = "roadmap_features"; label = "Roadmap features"; tier_hint = "strong" }
    ∷ record {
      agent_key = "roadmap_competitor";
      label = "Roadmap competitor analysis";
      tier_hint = "light";
    }
    ∷ []

unfoldable pub map_action_to_state : String → String
unfolding contains
map_action_to_state action =
    if contains
      ("run-planning" ∷ "run-followup-planning" ∷ "run-roadmap-discovery" ∷ "run-roadmap-features"
        ∷ "run-ideation" ∷ [])
      action
    then "planning"
    else if contains ("run-implementation" ∷ "skip-to-phase" ∷ "run-pipeline" ∷ []) action
    then "building"
    else if action == "generate-changelog"
    then "planning"
    else "building"

-- The error for a retired local review job; `none` is nil.
unfoldable pub unsupported_review_action : String → Option String
unsupported_review_action action =
    let a = to_lower (trim_space action) in
    if a == "run-review" || a == "run-qa-fix"
    then some ("unsupported action \"" <> a <> "\": deep review is owned by ORA (gone)")
    else none

unfoldable pub uses_task_workspace : String → Bool → Bool
uses_task_workspace action autopilot = action == "run-implementation" || action == "run-pipeline"

unfoldable pub task_workspace_write_mount : String → Bool
task_workspace_write_mount action = action == "run-implementation" || action == "run-pipeline"

-- The job that a drag to a column starts.
unfoldable pub column_job_action : String → Option String
column_job_action column =
    if column == "queue"
    then some "run-planning"
    else if column == "in_progress"
    then some "run-implementation"
    else none

unfoldable pub job_is_active : String → Bool
job_is_active state =
    let s = to_lower (trim_space state) in s == "queued" || s == "starting" || s == "running"

-- The actions that a paused task does not stop.
unfoldable pub is_pause_exempt : String → Bool
unfolding contains
is_pause_exempt action =
    contains
      ("pause-task" ∷ "resume-task" ∷ "recover-subtask" ∷ "mark-stuck" ∷ "generate-changelog"
        ∷ "skip-to-phase" ∷ "run-roadmap-discovery" ∷ "run-roadmap-features"
        ∷ "run-roadmap-competitor" ∷ "run-roadmap-publish" ∷ "run-ideation" ∷ [])
      action

-- The actions whose cancellation marks a subtask stuck.
unfoldable pub is_stuck_on_cancel : String → Bool
unfolding contains
is_stuck_on_cancel action =
    contains ("run-implementation" ∷ "run-planning" ∷ "run-followup-planning" ∷ "run-pipeline" ∷ [])
      action
