-- ===== src/Tests/Planners.antt =====
-- Planning, and the pipeline from no plan, on the demo directory.
use opm_api.Store.Tasks.{get_plan, read_spec, get_task, get_progress}
use opm_api.Prelude.{String, update, Bool, false, none, ◌∷◌, [], ◌≡◌, refl, lookup}
use opm_api.World.{◌>>=◌, write, value_or, SpecDir, World}
use opm_api.World.Layout.{write_if, ensure_layout, with_project, find_project}
use opm_api.World.Ready.{IsReady}
use opm_api.Store.Running.{View, At, Leads}
use opm_api.Store.Jobs.{fresh_job}
use opm_api.Store.Offering.{offered, coding_approved, get_task_valid_actions}
use opm_api.Store.Offering.Laws.{get_task_valid_actions-passes}
use opm_api.Runner.{Outcome}
use opm_api.Runner.Implementing.{coding_gate}
use opm_api.Runner.Implementing.Laws.{own}
use opm_api.Runner.Pausing.{task_paused_block}
use opm_api.Runner.Planning.{builtin_planning}
use opm_api.Runner.Planning.Planned.{IsPlanned, builtin_planning-IsPlanned}
use opm_api.Runner.Pipeline.{run_pipeline}
use opm_api.Runner.Pipeline.Parking.{IsParked}
use opm_api.Runner.Pipeline.Unplanned.{builtin_steps, run_pipeline_unplanned-IsParked}
use opm_api.Tests.Demo
use opm_api.Tests.Runners.{text_of, demo-At}

-- The demo directory with no plan.
abbrev bare_spec : SpecDir
bare_spec = record (Demo.spec) { plan = none }

abbrev bare_view : View
bare_view = record (Demo.view) { spec = bare_spec }

abbrev bare_world : World
bare_world = record (Demo.world) {
  projects = λ id. record (Demo.world.projects id) { specs = ("001-a", bare_spec) ∷ [] };
}

bare-IsReady : IsReady (own Demo.project Demo.job) bare_world
unfolding find_project fresh_job
bare-IsReady = record {
  known = refl;
  can_write = λ f. refl;
  filled = record {
    has_board = refl;
    has_status = refl;
    has_roadmap = refl;
    has_ideation = refl;
    has_changelog = refl;
  };
}

bare-At : At (own Demo.project Demo.job) Demo.job.spec_id bare_view bare_world
unfolding fresh_job lookup
bare-At = record { ready = bare-IsReady; same_spec = refl; same_board = refl; same_runs = refl }

run_pipeline_unplanned-IsParked_example :
    (out : Outcome × Bool) × (v' : View) × (out.0.error ≡ none)
    × IsParked v'
    × Leads
        (own Demo.project Demo.job)
        "001-a"
        (run_pipeline (builtin_steps text_of 9) 9 Demo.job)
        bare_world
        out
        v'
unfolding fresh_job lookup
run_pipeline_unplanned-IsParked_example =
    run_pipeline_unplanned-IsParked Demo.project text_of 9 Demo.job refl bare-At refl refl refl refl

builtin_planning-IsPlanned_example :
    (message : String) × (v' : View) × IsPlanned Demo.project 9 Demo.job
      (Demo.task_in "queue" 0)
      Demo.view
      v'
    × Leads
        (own Demo.project Demo.job)
        "001-a"
        (builtin_planning 9 Demo.job)
        Demo.world
        (record { message = message; error = none })
        v'
unfolding fresh_job
builtin_planning-IsPlanned_example =
    builtin_planning-IsPlanned Demo.project 9 Demo.job demo-At refl refl

get_task_valid_actions-passes_example :
    Leads
      (own Demo.project Demo.job)
      "001-a"
      (coding_gate 9 Demo.job (Demo.task_in "queue" 0))
      Demo.world
      false
      Demo.view
    × Leads
        (own Demo.project Demo.job)
        "001-a"
        (task_paused_block 9 Demo.job)
        Demo.world
        none
        Demo.view
unfolding fresh_job get_task_valid_actions ◌>>=◌ get_task with_project find_project ensure_layout
    write write_if update read_spec lookup value_or get_plan get_progress coding_approved offered
get_task_valid_actions-passes_example =
    get_task_valid_actions-passes Demo.project 9 Demo.job demo-At refl refl refl refl
