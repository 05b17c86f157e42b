-- ===== src/Tests/Runners.antt =====
-- The steps of a job on the demo directory.
use opm_api.Prelude.{String, Bool, false, none, some, ◌≡◌, refl, arith, ok, lookup, contains}
use opm_api.Models.{Time}
use opm_api.World.{World, pure}
use opm_api.World.Layout.{find_project}
use opm_api.World.Ready.{IsReady}
use opm_api.Plan.{
  is_pending, is_done, is_recoverable, count_subtasks, count_phases, count_plan_subtasks,
  count_pending_subtasks, first_pending_in, first_pending, first_pending_subtask_id,
}
use opm_api.Store.Running.{View, At, Leads}
use opm_api.Store.Jobs.{fresh_job}
use opm_api.Actions.{is_pause_exempt}
use opm_api.Runner.{Outcome}
use opm_api.Runner.Implementing.{builtin_implementation_opts}
use opm_api.Runner.Implementing.Laws.{own}
use opm_api.Runner.Implementing.Stepped.{IsStepped, builtin_implementation_opts-IsStepped}
use opm_api.Runner.Repairing.{builtin_recover}
use opm_api.Runner.Repairing.Laws.{IsRecovered, builtin_recover-IsRecovered}
use opm_api.Runner.Pausing.{builtin_pause, builtin_resume, task_paused_block, paused_message}
use opm_api.Runner.Pausing.Laws.{pause-resume}
use opm_api.Runner.Pipeline.{PipelineSteps, run_pipeline}
use opm_api.Runner.Pipeline.Named.{is_named, all_named}
use opm_api.Runner.Pipeline.Draining.{builtin_step, CanDrain}
use opm_api.Runner.Pipeline.Parking.{IsParked, run_pipeline-IsParked}
use opm_api.Tests.Demo

abbrev pub text_of : Time → String
text_of t = "now"

abbrev pub steps : PipelineSteps
steps = record {
  planning = λ j. pure (record { message = ""; error = none }, false);
  renew_workspace = pure tt;
  implementation = builtin_step text_of 9;
}

demo-IsReady : IsReady (own Demo.project Demo.job) Demo.world
unfolding find_project fresh_job
demo-IsReady = record {
  known = refl;
  can_write = λ f. refl;
  filled = record {
    has_board = refl;
    has_status = refl;
    has_roadmap = refl;
    has_ideation = refl;
    has_changelog = refl;
  };
}

pub demo-At : At (own Demo.project Demo.job) Demo.job.spec_id Demo.view Demo.world
unfolding fresh_job lookup
demo-At = record { ready = demo-IsReady; same_spec = refl; same_board = refl; same_runs = refl }

demo-CanDrain : CanDrain Demo.job.run_id 2 Demo.view
unfolding fresh_job is_named all_named count_pending_subtasks count_phases count_subtasks is_pending
    is_done count_plan_subtasks lookup
demo-CanDrain = record {
  task = Demo.task_in "queue" 0;
  has_task = refl;
  not_gated = refl;
  plan = Demo.plan;
  has_plan = refl;
  named = refl;
  pending = refl;
  rest_done = refl;
  some_work = omega arith;
  not_paused = refl;
  not_cancelled = refl;
}

run_pipeline-IsParked_example :
    (out : Outcome × Bool) × (v' : View) × (out.0.error ≡ none)
    × IsParked v'
    × Leads (own Demo.project Demo.job) "001-a" (run_pipeline steps 9 Demo.job) Demo.world out v'
unfolding fresh_job
run_pipeline-IsParked_example =
    run_pipeline-IsParked Demo.project text_of 9 Demo.job refl steps refl (omega arith) demo-At
      demo-CanDrain

builtin_implementation_opts-IsStepped_example :
    (message : String) × (v' : View) × IsStepped Demo.project 9 Demo.job false Demo.plan
      (Demo.task_in "queue" 0)
      Demo.view
      v'
    × Leads
        (own Demo.project Demo.job)
        Demo.job.spec_id
        (builtin_implementation_opts text_of 9 Demo.job false)
        Demo.world
        (record { message = message; error = none })
        v'
unfolding fresh_job first_pending_subtask_id first_pending first_pending_in is_pending
builtin_implementation_opts-IsStepped_example =
    builtin_implementation_opts-IsStepped Demo.project 9 Demo.job text_of false demo-At refl refl
      refl refl refl refl

builtin_recover-IsRecovered_example :
    (v' : View) × IsRecovered Demo.plan v'
    × (m : String) × Leads
        (own Demo.project Demo.job)
        Demo.job.spec_id
        (builtin_recover 9 Demo.job)
        Demo.world
        (record { message = m; error = none })
        v'
unfolding fresh_job count_phases count_subtasks is_recoverable
builtin_recover-IsRecovered_example =
    builtin_recover-IsRecovered Demo.project 9 Demo.job demo-At refl refl refl refl (omega arith)

pause-resume_example :
    (w₁ : World) × (w₂ : World) × (m₁ : String) × (m₂ : String) × (builtin_pause 9 Demo.job
        Demo.world
      ≡ (ok (record { message = m₁; error = none }), w₁))
    × ((task_paused_block 9 (record (Demo.job) { action = "run-planning" }) w₁).0
        ≡ ok (some paused_message))
    × (builtin_resume 9 Demo.job w₁ ≡ (ok (record { message = m₂; error = none }), w₂))
    × ((task_paused_block 9 (record (Demo.job) { action = "run-planning" }) w₂).0 ≡ ok none)
unfolding fresh_job is_pause_exempt contains
pause-resume_example = pause-resume Demo.project 9 Demo.job "run-planning" demo-At refl refl refl
