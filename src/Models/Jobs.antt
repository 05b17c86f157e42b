-- ===== src/Models/Jobs.antt =====
-- models.go: a job, and the identity and pinned model that a chained job starts with.
use opm_api.Prelude.{
  ℕ, String, Bool, false, not, ◌&&◌, Option, List, ◌==◌, trim_space, if◌then◌else◌,
}
use opm_api.Models.Projects.{Time}

-- `modelOverride` of oam_client.go.
pub record ModelOverride : Type 0 where
  pub provider : String
  pub model : String

pub record Job : Type 0 where
  pub run_id : String
  pub project_id : String
  pub spec_id : String
  pub action : String
  pub state : String
  pub created_at : Time
  pub updated_at : Time
  pub started_at : Option Time
  pub completed_at : Option Time
  pub error : String
  pub attempt : ℕ
  pub progress_pct : Option ℕ
  pub runner_image : String
  pub execution : String
  pub message : String
  pub target_phase : ℕ
  pub ideation_type : String
  pub competitors : List String
  pub audience_notes : String
  pub organization_id : String
  pub actor_username : String
  pub agent_key : String
  pub model_override : Option ModelOverride
  pub resolved_provider : String
  pub resolved_model : String
  pub resolved_model_source : String
  pub resolved_key_scope : String
  pub resolved_agent_key : String

pub record JobOrigin : Type 0 where
  pub organization_id : String
  pub actor_username : String
  pub model_override : Option ModelOverride
  pub resolved_provider : String
  pub resolved_model : String
  pub resolved_model_source : String
  pub resolved_key_scope : String
  pub resolved_agent_key : String

unfoldable pub job_origin_from : Job → JobOrigin
job_origin_from j = record {
  organization_id = j.organization_id;
  actor_username = j.actor_username;
  model_override = j.model_override;
  resolved_provider = j.resolved_provider;
  resolved_model = j.resolved_model;
  resolved_model_source = j.resolved_model_source;
  resolved_key_scope = j.resolved_key_scope;
  resolved_agent_key = j.resolved_agent_key;
}

unfoldable pub pinned_for : JobOrigin → String → Bool
pinned_for o agent_key =
    if trim_space o.resolved_provider == ""
    then false
    else if trim_space o.resolved_model == ""
    then false
    else trim_space o.resolved_agent_key == trim_space agent_key && not (agent_key == "")
