-- ===== src/Store/Jobs/Laws.antt =====
-- What a new job takes over from the job it follows.
use opm_api.Prelude.{
  String, true, false, ◌≡◌, refl, ◌==◌, arith, trim_space, eq_iff, Bool-cases, inl, inr, ◌⊎◌,
}
use opm_api.Models.{Time, JobOrigin, pinned_for}
use opm_api.Actions.{agent_key_for_action}
use opm_api.Store.Jobs.{fresh_job, with_origin, new_job}

pinned_for_lem :
    (origin : JobOrigin) (agent_key : String)
    → pinned_for origin agent_key ≡ true
    → ((agent_key == "") ≡ false) × (trim_space origin.resolved_agent_key ≡ trim_space agent_key)
unfolding pinned_for
pinned_for_lem origin agent_key h =
    ground (arith, eq_iff (trim_space origin.resolved_agent_key) (trim_space agent_key))

-- A new job acts for the same user and organisation as its origin. Either it takes the pinned model
-- over, and then the origin was resolved for the agent of the new job's own action, which is not "",
-- or it has no resolved model, provider and agent.
pub new_job-pin :
    (now : Time) (uuid project_id action spec_id image : String) (origin : JobOrigin)
    → let j = new_job now uuid project_id action spec_id image origin in
      (j.actor_username ≡ origin.actor_username)
      × (j.organization_id ≡ origin.organization_id)
      × (j.agent_key ≡ agent_key_for_action action)
      × (((j.resolved_model ≡ origin.resolved_model)
            × ((j.agent_key == "") ≡ false)
            × (trim_space origin.resolved_agent_key ≡ trim_space j.agent_key))
          ⊎ ((j.resolved_model ≡ "") × (j.resolved_provider ≡ "") × (j.resolved_agent_key ≡ "")))
unfolding new_job with_origin fresh_job
new_job-pin now uuid project_id action spec_id image origin =
    elim (Bool-cases (pinned_for origin (agent_key_for_action action))) [
      | inl e ↦
          let (n, s) = pinned_for_lem origin (agent_key_for_action action) e in
          rw (e, new_job, with_origin) (refl, refl, refl, inl (refl, n, s))
      | inr e ↦ rw (e, new_job, with_origin) (refl, refl, refl, inr (refl, refl, refl))
    ]

-- A new job is queued, with the action on the spec.
pub new_job-queued :
    (now : Time) (uuid project_id action spec_id image : String) (origin : JobOrigin)
    → let j = new_job now uuid project_id action spec_id image origin in
      (j.state ≡ "queued") × (j.action ≡ action) × (j.spec_id ≡ spec_id)
unfolding new_job with_origin fresh_job
new_job-queued now uuid project_id action spec_id image origin =
    elim (Bool-cases (pinned_for origin (agent_key_for_action action))) [
      | inl e ↦ rw (e, new_job, with_origin) (refl, refl, refl)
      | inr e ↦ rw (e, new_job, with_origin) (refl, refl, refl)
    ]
