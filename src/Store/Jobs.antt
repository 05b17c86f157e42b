-- ===== src/Store/Jobs.antt =====
-- store.go: the jobs of a project.
pub mod Laws
use opm_api.Prelude.{
  ℕ, String, Bool, true, Option, none, some, List, [], ◌<>◌, Result, ok, err, lookup, insert, map,
  show, if◌then◌else◌,
}
use opm_api.Models.{Time, Project, idle_status, Job, JobOrigin, ModelOverride, pinned_for}
use opm_api.Actions.{agent_key_for_action, map_action_to_state, unsupported_review_action}
use opm_api.World.{File, World, Op, Done, pure, fail, ignore, write, ◌>>=◌, ◌>>◌}
use opm_api.World.Layout.{with_project}
use opm_api.Store.Tasks.{read}

-- The values that every field of a new job has before its origin is looked at.
unfoldable pub fresh_job : Time → String → String → String → String → String → Job
fresh_job now run_id project_id action spec_id runner_image = record {
  run_id = run_id;
  project_id = project_id;
  spec_id = spec_id;
  action = action;
  state = "queued";
  created_at = now;
  updated_at = now;
  started_at = none;
  completed_at = none;
  error = "";
  attempt = 1;
  progress_pct = none;
  runner_image = runner_image;
  execution = "";
  message = "";
  target_phase = 0;
  ideation_type = "";
  competitors = [];
  audience_notes = "";
  organization_id = "";
  actor_username = "";
  agent_key = "";
  model_override = none;
  resolved_provider = "";
  resolved_model = "";
  resolved_model_source = "";
  resolved_key_scope = "";
  resolved_agent_key = "";
}

-- The job that takes over the identity of its origin, and the pinned model within one agent phase.
unfoldable pub with_origin : String → JobOrigin → Job → Job
with_origin agent_key origin j =
    let named = record j {
      organization_id = origin.organization_id;
      actor_username = origin.actor_username;
      agent_key = agent_key;
      model_override = origin.model_override;
    } in
    if pinned_for origin agent_key
    then record named {
      resolved_provider = origin.resolved_provider;
      resolved_model = origin.resolved_model;
      resolved_model_source = origin.resolved_model_source;
      resolved_key_scope = origin.resolved_key_scope;
      resolved_agent_key = origin.resolved_agent_key;
    }
    else named

unfoldable pub new_job : Time → String → String → String → String → String → JobOrigin → Job
new_job now uuid project_id action spec_id runner_image origin =
    with_origin (agent_key_for_action action) origin
      (fresh_job now (show now <> "-" <> uuid) project_id action spec_id runner_image)

module _ (now : Time) where
  -- The writes under the lock. A run's file is named after the run.
  unfoldable pub write_new_job : Job → Project → Op Job
  write_new_job j p = do
    write File.run p.id (λ d. record d { runs = insert j.run_id j d.runs })
    ignore (
        write File.status p.id (λ d. record d {
          status = some (record (idle_status now) {
            active = true;
            spec = j.spec_id;
            state = map_action_to_state j.action;
            run_id = j.run_id;
          });
        }))
    pure j

  unfoldable pub create_job_with_origin :
      String → String → String → String → String → JobOrigin → Op Job
  create_job_with_origin uuid project_id action spec_id runner_image origin =
      elim (unsupported_review_action action) [
        | some e ↦ fail e
        | none ↦
            with_project now project_id
              (write_new_job (new_job now uuid project_id action spec_id runner_image origin))
      ]

  unfoldable pub get_job : String → String → Op Job
  get_job project_id run_id = with_project now project_id (read (λ d. lookup run_id d.runs))

  unfoldable pub update_job : String → Job → Op Done
  update_job project_id j = with_project now project_id λ p.
      write File.run p.id
        (λ d. record d { runs = insert j.run_id (record j { updated_at = now }) d.runs })

  unfoldable pub list_jobs : String → Op (List Job)
  list_jobs project_id = with_project now project_id (read (λ d. some (map (λ e. e.1) d.runs)))
