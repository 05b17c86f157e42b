-- ===== src/Tests/Drags.antt =====
-- Drags of a card and what follows planning and coding, on the demo directory.
use opm_api.Prelude.{String, true, none, some, Option, ◌≡◌, refl, ok, contains, trim_space}
use opm_api.Models.{auto_start_on_move, Job, JobOrigin}
use opm_api.World.{World}
use opm_api.Store.Jobs.{fresh_job}
use opm_api.Store.Running.{View, Leads}
use opm_api.Actions.{column_job_action, is_pause_exempt}
use opm_api.Runner.Implementing.Laws.{own}
use opm_api.Autopilot.{
  Settings, BoardTriggerOutcome, not_started, maybe_start_job_for_column, post_planning_job,
}
use opm_api.Autopilot.Dragging.{is_busy, any_owns, maybe_start-once}
use opm_api.Autopilot.Chaining.{Planned, post_planning_job-Planned}
use opm_api.Tests.Demo
use opm_api.Tests.Runners.{demo-At}

abbrev settings : Settings
settings = record { runner_image = "runner"; container = true; auto_chain = true }

abbrev actor : JobOrigin
actor = record {
  organization_id = "";
  actor_username = "ann";
  model_override = none;
  resolved_provider = "";
  resolved_model = "";
  resolved_model_source = "";
  resolved_key_scope = "";
  resolved_agent_key = "";
}

maybe_start-once_example :
    (j : Job) × (out : BoardTriggerOutcome) × (w₁ : World) × (w₂ : World) × (reason : String)
    × (maybe_start_job_for_column settings 9 "u"
          (own Demo.project Demo.job)
          (Demo.task_in "queue" 0)
          actor
          Demo.world
        ≡ (ok (out, some j), w₁))
    × (out.started ≡ true)
    × (j.action ≡ "run-planning")
    × (j.spec_id ≡ "001-a")
    × (maybe_start_job_for_column settings 10 "v"
          (own Demo.project Demo.job)
          (Demo.task_in "in_progress" 0)
          actor
          w₁
        ≡ (ok (not_started reason, none), w₂))
unfolding column_job_action trim_space is_busy any_owns fresh_job auto_start_on_move
maybe_start-once_example =
    maybe_start-once settings (own Demo.project Demo.job) (Demo.task_in "queue" 0) 9 10 "u" "v"
      actor actor "in_progress" demo-At refl refl refl refl

abbrev planned : Job
planned = record (Demo.job) { action = "run-planning" }

post_planning_job-Planned_example :
    (m : String) × (next : Option Job) × (v' : View) × Planned settings Demo.project 9 "u" planned
      (Demo.task_in "queue" 0)
      Demo.view
      v'
      next
    × Leads
        (own Demo.project planned)
        "001-a"
        (post_planning_job settings 9 "u" planned)
        Demo.world
        (m, next)
        v'
unfolding is_pause_exempt contains fresh_job
post_planning_job-Planned_example =
    post_planning_job-Planned settings Demo.project 9 "u" planned demo-At refl refl refl refl
