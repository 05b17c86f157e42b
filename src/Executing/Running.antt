-- ===== src/Executing/Running.antt =====
-- `executeJob` of job_runner.go, from the preparation of the workspace to the end of the action.
pub mod Laws
use opm_api.Prelude.{
  String, Bool, false, not, ◌&&◌, ◌||◌, Option, none, some, ◌<>◌, ◌==◌, ok, err, truncate_runes,
  if◌then◌else◌,
}
use opm_api.Models.{Project, Job, task_autopilot}
use opm_api.Actions.{uses_task_workspace}
use opm_api.World.{Op, Done, pure, ignore, attempt, try, ◌>>=◌, ◌>>◌}
use opm_api.World.Layout.{get_project}
use opm_api.Store.Tasks.{get_task, append_spec_log}
use opm_api.Store.Documents.{append_project_log}
use opm_api.Store.Jobs.{get_job, update_job}
use opm_api.Results.{RunnerResult}
use opm_api.Runner.Pausing.{task_paused_block}
use opm_api.Autopilot.{Settings}
use opm_api.Executing.Ending.{fail_job, finish_job}
use opm_api.Executing.{JobHosts, Clock}
use opm_api.Executing.Acting.{apply_runner_result, builtin_action}
use opm_api.Executing.Spawning.{Spawned, spawn}

module _ {S : Type 0} (hosts : JobHosts S) (clock : Clock) (cfg : Settings) (uuid : String) where
  abbrev pub is_fallback : RunnerResult → Bool
  is_fallback rr = rr.mode == "fallback" && not (rr.reason == "")

  unfoldable pub log_fallback : Job → RunnerResult → Op Done
  log_fallback j rr =
      if is_fallback rr && not (j.spec_id == "")
      then ignore (
          append_spec_log clock.now j.project_id j.spec_id
            (if j.action == "run-implementation" then "implementation" else "planning")
            ("[" <> j.run_id <> "] runner fallback: " <> rr.reason <> "\n"))
      else pure tt

  abbrev pub fallback_note : RunnerResult → String
  fallback_note rr =
      if is_fallback rr then "Model fallback: " <> truncate_runes rr.reason 160 <> ". " else ""

  -- The end of the job after the builtin action.
  unfoldable pub act_builtin : String → String → String → String → Job → Op (Option Job)
  unfolding builtin_action
  act_builtin action execution note dir j = do
    (out, execution') ← builtin_action hosts clock cfg uuid execution dir j
    finish_job cfg clock.now uuid action j.project_id j.run_id execution' note out

  -- The action of the job: the model's result where it is handled, else the builtin one. `session_dir`
  -- is blank where the job has no session's workspace.
  unfoldable pub act : String → String → String → Spawned → Op (Option Job)
  unfolding act_builtin apply_runner_result log_fallback
  act action dir session_dir s = elim s.result [
    | none ↦ act_builtin action s.execution s.note dir s.job
    | some rr ↦ do
      applied ← apply_runner_result hosts clock cfg uuid s.job rr session_dir
      elim applied [
        | some out ↦
            finish_job cfg clock.now uuid action s.job.project_id s.job.run_id s.execution s.note
              out
        | none ↦ do
          log_fallback s.job rr
          act_builtin action s.execution (s.note <> fallback_note rr) dir s.job
      ]
  ]

  -- The action, unless the task is paused.
  unfoldable pub act_unless_paused : String → String → String → Spawned → Op (Option Job)
  unfolding act
  act_unless_paused action dir session_dir s = do
    let j' = record (s.job) { progress_pct = some 20 }
    ignore (update_job clock.now j'.project_id j')
    blocked ← task_paused_block clock.now j'
    elim blocked [
      | some message ↦ do fail_job clock.now s.execution j' message "paused"; pure none
      | none ↦ act action dir session_dir (record s { job = j' })
    ]

  -- The run of a job that is not cancelled, in its workspace.
  unfoldable pub run_job : String → String → String → String → Job → Op (Option Job)
  unfolding spawn act_unless_paused
  run_job action clone dir session_dir j = do
    if clone == ""
        then pure tt
        else ignore (
            append_project_log clock.now j.project_id j.action
              ("[" <> j.run_id <> "] clone honesty: " <> clone <> "\n"))
    s ← spawn hosts clock cfg uuid (if clone == "" then "" else clone <> " ") dir j
    act_unless_paused action dir session_dir s

  abbrev pub explores : String → Bool
  explores action =
      action == "run-ideation"
      || action == "run-roadmap-discovery"
      || action == "run-roadmap-features"
      || action == "run-roadmap-competitor"

  abbrev pub starting_job : Job → Job
  starting_job j = record j {
    state = "starting";
    execution = "builtin";
    message = "Starting job: preparing workspace.";
    started_at = some clock.now;
  }

  unfoldable pub is_on_autopilot : Job → Op Bool
  is_on_autopilot j = if j.spec_id == "" then pure false else do
    task ← attempt (get_task clock.now j.project_id j.spec_id)
    pure (elim task [ none ↦ false | some t ↦ task_autopilot t ])

  -- What follows the preparation: the job is read again, since it may be cancelled by now.
  unfoldable pub run_in : Project → Bool → Job → String → Op (Option Job)
  unfolding run_job
  run_in p own_session j dir = do
    let note = hosts.task_workspace_note p j.spec_id dir
    if own_session && not (note == "")
        then ignore (
            append_spec_log clock.now j.project_id j.spec_id "implementation"
              ("[" <> j.run_id <> "] " <> note <> "\n"))
        else pure tt
    found ← attempt (get_job clock.now j.project_id j.run_id)
    elim found [
      | none ↦ pure none
      | some current ↦
          if current.state == "cancelled"
          then pure none
          else run_job j.action (if explores j.action then hosts.clone_note p dir else "") dir
              (if own_session then dir else "") current
    ]

  -- The job that is handed to `executeJob` next, if any.
  unfoldable pub execute_job : Job → Op (Option Job)
  unfolding run_in
  execute_job j₀ = do
    project ← try (get_project j₀.project_id)
    elim project [
      | err e ↦ do fail_job clock.now "builtin" j₀ "Job failed: project not found." e; pure none
      | ok p ↦ do
        let j = starting_job j₀
        ignore (update_job clock.now j.project_id j)
        autopilot ← is_on_autopilot j
        let own_session = uses_task_workspace j.action autopilot
        if own_session && j.spec_id == ""
            then (do
              fail_job clock.now "builtin" j (j.action <> " requires specId") "specId required"
              pure none)
            else (do
              dir ← try (
                  if own_session
                  then hosts.ensure_task_workspace p j
                  else hosts.prepare_job_workspace p j)
              elim dir [
                | err e ↦ do
                  fail_job clock.now "builtin" j "Job failed while preparing workspace." e
                  pure none
                | ok path ↦ run_in p own_session j path
              ])
    ]
