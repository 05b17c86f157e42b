-- ===== src/Executing/Spawning.antt =====
-- The container of a job, in `executeJob` of job_runner.go.
use opm_api.Prelude.{
  String, Option, none, some, ◌<>◌, ◌==◌, Result, ok, err, nz, trim_space, truncate_runes,
  replace_all, if◌then◌else◌,
}
use opm_api.Models.{Job}
use opm_api.World.{Op, pure, ignore, try, ◌>>=◌, ◌>>◌}
use opm_api.Store.Jobs.{update_job}
use opm_api.Results.{RunnerResult}
use opm_api.Autopilot.{Settings}
use opm_api.Executing.{ContainerOutcome, JobHosts, Clock}

-- What is known of a run after its container: the job, the execution, the note and the result.
pub record Spawned : Type 0 where
  pub job : Job
  pub execution : String
  pub note : String
  pub result : Option RunnerResult

unfoldable pub container_note : ContainerOutcome → String
unfolding trim_space truncate_runes replace_all
container_note out =
    let tip = trim_space out.stdout in
    "Container spawn OK"
    <> elim out.result [
      | some rr ↦
          " (runner mode="
          <> rr.mode
          <> (if rr.reason == "" then "" else "; " <> truncate_runes rr.reason 80)
          <> ")"
      | none ↦
          if tip == "" then "" else " (" <> truncate_runes (replace_all tip "\n" " ") 120 <> ")"
    ]
    <> ". "

module _ {S : Type 0} (hosts : JobHosts S) (clock : Clock) (cfg : Settings) (uuid : String) where
  abbrev pub running_job : String → String → Job → Job
  running_job execution message j = record j {
    state = "running";
    execution = execution;
    message = message;
  }

  -- After the container: its result, or the builtin action in its place.
  unfoldable pub after_container : Job → Result ContainerOutcome → Spawned
  unfolding container_note
  after_container j (err e) =
      let note = "Container spawn failed (" <> e <> "); falling back to builtin. " in
      record {
        job = record j {
          execution = "builtin";
          message = note <> "Running builtin action " <> j.action <> "…";
        };
        execution = "builtin";
        note = note;
        result = none;
      }
  after_container j (ok out) =
      let note = container_note out in
      record {
        job = record j {
          execution = "container";
          message = note <> "Writing artifacts for " <> j.action <> "…";
        };
        execution = "container";
        note = note;
        result = out.result;
      }

  -- The container of the job, if it has one; the pipeline starts its own.
  unfoldable pub spawn : String → String → Job → Op Spawned
  unfolding after_container
  spawn note dir j =
      if j.action == "run-pipeline"
      then pure (record {
        job =
            running_job "builtin"
              "Running task pipeline: plan → implement all subtasks → park in review…" j;
        execution = "builtin";
        note = note;
        result = none;
      })
      else if cfg.container
      then (do
        let started =
            record (running_job "container"
              ("Spawning runner container ("
                <> nz j.runner_image cfg.runner_image
                <> ") for "
                <> j.action
                <> "…")
              j) { progress_pct = some 10 }
        ignore (update_job clock.now j.project_id started)
        out ← try (hosts.run_task_container started dir)
        pure (after_container started out))
      else pure (record {
        job = running_job "builtin" ("Running builtin action " <> j.action <> "…") j;
        execution = "builtin";
        note = note;
        result = none;
      })
