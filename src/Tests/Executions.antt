-- ===== src/Tests/Executions.antt =====
-- A job at its end, the files of a runner's result, and the ideas of a run, on the demo directory.
use opm_api.Prelude.{
  ℕ, String, true, false, none, some, [], ◌∷◌, refl, arith, contains, count, lookup, insert,
}
use opm_api.Models.{Job, Idea, no_progress}
use opm_api.Results.{RunnerResult}
use opm_api.Runner.Implementing.Laws.{own}
use opm_api.Store.Running.{View, Leads, put_progress-Leads}
use opm_api.Store.Jobs.{fresh_job, update_job}
use opm_api.Store.Running.Enqueuing.{with_run, update_job-Leads}
use opm_api.Autopilot.{Settings}
use opm_api.Executing.{JobHosts, Clock}
use opm_api.Executing.Running.{run_job}
use opm_api.Executing.Running.Laws.{Blocked, run_job-Blocked}
use opm_api.Executing.Ending.{finish_job}
use opm_api.World.{pure, fail}
use opm_api.Store.Tasks.{put_progress}
use opm_api.Actions.{is_pause_exempt}
use opm_api.Executing.Ending.Laws.{Ended, finish_job-Ended}
use opm_api.Results.Implementing.{record_implementation_change_set}
use opm_api.Results.Implementing.Laws.{Told, told_changes, record_implementation_change_set-Told}
use opm_api.Ideas.{Implemented, bucket_of, merge_ideas}
use opm_api.Ideas.Laws.{Distinct, merge_ideas-Distinct}
use opm_api.Tests.Demo
use opm_api.Tests.Runners.{demo-At, steps, text_of}
use opm_api.Tests.ChangeSets.{counting, limits, delta}
use opm_api.Tests.RoadmapRuns.{told, new_id}

abbrev settings : Settings
settings = record { runner_image = "image"; container = false; auto_chain = true }

-- The demo job, once it is recorded.
abbrev recorded_job : Job
recorded_job = record Demo.job { updated_at = 9 }

abbrev recorded_view : View
recorded_view = with_run recorded_job Demo.view

recorded_job-Leads :
    Leads
      (own Demo.project recorded_job)
      recorded_job.spec_id
      (update_job 9 "p1" Demo.job)
      Demo.world
      tt
      recorded_view
unfolding fresh_job
recorded_job-Leads =
    update_job-Leads (own Demo.project recorded_job) recorded_job.spec_id 9 demo-At Demo.job

finish_job-Ended_example :
    (v' : View) × Ended settings 9 "u2" "pause-task" Demo.project "builtin"
      (some "no task")
      recorded_job
      recorded_view
      v'
    × Leads
        (own Demo.project recorded_job)
        recorded_job.spec_id
        (finish_job settings 9 "u2" "pause-task" recorded_job.project_id recorded_job.run_id
          "builtin" ""
          (record { message = "Task not found"; error = some "no task" }))
        recorded_job-Leads.after
        none
        v'
unfolding fresh_job lookup insert
finish_job-Ended_example =
    finish_job-Ended settings 9 "u2" "pause-task" Demo.project "builtin" ""
      (record { message = "Task not found"; error = some "no task" }) recorded_job
      recorded_job-Leads.at refl refl

abbrev with_files : RunnerResult
with_files = record told { files = delta }

record_implementation_change_set-Told_example :
    (text : String) × (host : ℕ) × (v' : View) × Told 9 counting limits true Demo.project Demo.job
      (told_changes 9 Demo.project Demo.job with_files)
      0
      Demo.view
      text
      host
      v'
    × Leads
        (own Demo.project Demo.job)
        Demo.job.spec_id
        (record_implementation_change_set 9 counting limits true Demo.job with_files 0)
        Demo.world
        (text, host)
        v'
unfolding fresh_job
record_implementation_change_set-Told_example =
    record_implementation_change_set-Told 9 counting limits true Demo.project Demo.job demo-At refl
      with_files 0

abbrev idea : String → Idea
idea title = record {
  id = "";
  type = "";
  title = title;
  description = "";
  rationale = "";
  estimated_effort = "";
  affected_files = [];
  implementation_approach = "";
  status = "";
  created_at = "";
}

abbrev nothing_done : Implemented
nothing_done = record { ids = []; titles = [] }

merge_ideas-Distinct_example :
    Distinct
      (merge_ideas new_id "now" "m" nothing_done ""
        (("security", idea "Rotate keys" ∷ idea " rotate KEYS" ∷ []) ∷ [])
        []
        0
        0).0
unfolding bucket_of lookup count
merge_ideas-Distinct_example =
    merge_ideas-Distinct new_id "now" "m" nothing_done ""
      (("security", idea "Rotate keys" ∷ idea " rotate KEYS" ∷ []) ∷ []) [] 0 0 none_twice
  where
    none_twice : Distinct []
    none_twice typ a = omega arith

-- A host whose workspaces are there at once.
abbrev job_hosts : JobHosts ℕ
job_hosts = record {
  ensure_task_workspace = λ p j. pure "/work";
  prepare_job_workspace = λ p j. pure "/work";
  task_workspace_note = λ p id dir. "";
  clone_note = λ p dir. "";
  run_task_container = λ j dir. fail "no docker";
  pipeline_steps = λ j dir. steps;
  session_files = counting;
  session_state = λ dir. 0;
  session = λ dir. true;
  limits = limits;
  model_competitor = λ j rr. pure (record { message = ""; error = none });
  builtin_competitor = λ j. pure (record { message = ""; error = none });
  builtin_publish = λ j. pure (record { message = ""; error = none });
}

abbrev clock : Clock
clock = record { now = 9; rfc3339 = text_of; phase_id = new_id; feat_id = new_id; idea_id = new_id }

abbrev paused_view : View
paused_view = record Demo.view {
  spec = record Demo.spec { progress = some (record no_progress { paused = true }) };
}

paused-Leads :
    Leads
      (own Demo.project Demo.job)
      "001-a"
      (put_progress 9 "p1" "001-a" (record no_progress { paused = true }))
      Demo.world
      tt
      paused_view
unfolding fresh_job
paused-Leads =
    put_progress-Leads (own Demo.project Demo.job) "001-a" 9 demo-At
      (record no_progress { paused = true })

run_job-Blocked_example :
    (v' : View) × Blocked job_hosts clock settings "u2" Demo.project Demo.job.run_id paused_view v'
    × Leads
        (own Demo.project Demo.job)
        Demo.job.spec_id
        (run_job job_hosts clock settings "u2" "run-pipeline" "" "/work" "/work" Demo.job)
        paused-Leads.after
        none
        v'
unfolding fresh_job is_pause_exempt contains
run_job-Blocked_example =
    run_job-Blocked job_hosts clock settings "u2" Demo.project "run-pipeline" "" "/work" "/work"
      Demo.job paused-Leads.at refl refl refl refl
