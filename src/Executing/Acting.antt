-- ===== src/Executing/Acting.antt =====
-- `applyRunnerResult` of model_apply.go, and the switch of `executeJob` over the builtin actions.
use opm_api.Prelude.{
  String, false, not, ◌&&◌, ◌||◌, Option, none, some, ◌<>◌, ◌==◌, is_empty, contains_text,
  trim_space, if◌then◌else◌,
}
use opm_api.Models.{Job}
use opm_api.Actions.{unsupported_review_action}
use opm_api.World.{Op, pure, ◌>>=◌}
use opm_api.Results.{RunnerResult}
use opm_api.Results.Planning.{apply_model_planning}
use opm_api.Results.Implementing.{apply_model_implementation_opts}
use opm_api.Runner.{Outcome, failed_with}
use opm_api.Runner.Planning.{builtin_planning}
use opm_api.Runner.Implementing.{builtin_implementation_opts}
use opm_api.Runner.Pausing.{builtin_pause, builtin_resume}
use opm_api.Runner.Repairing.{builtin_recover, builtin_mark_stuck}
use opm_api.Runner.Skipping.{builtin_skip_to_phase}
use opm_api.Runner.Changelog.{builtin_changelog}
use opm_api.Runner.Pipeline.{run_pipeline}
use opm_api.Roadmaps.Discovering.{apply_model_roadmap_discovery, builtin_roadmap_discovery}
use opm_api.Roadmaps.Proposing.{
  can_discover, apply_model_roadmap_features, builtin_roadmap_features,
}
use opm_api.Ideas.{apply_model_ideation}
use opm_api.Ideas.Seeding.{builtin_ideation}
use opm_api.Autopilot.{Settings}
use opm_api.Executing.{JobHosts, Clock}

abbrev pub deep_review : Job → Op Outcome
deep_review j = pure (record {
  message = "Deep review is owned by ORA; local run-review/run-qa-fix are gone.";
  error = unsupported_review_action j.action;
})

module _ {S : Type 0} (hosts : JobHosts S) (clock : Clock) (cfg : Settings) (uuid : String) where
  abbrev pub handled : Op Outcome → Op (Option Outcome)
  handled m = do out ← m; pure (some out)

  -- The features of a run without phases are left to the builtin step.
  abbrev pub unless_phases_missing : Op Outcome → Op (Option Outcome)
  unless_phases_missing m = do
    out ← m
    pure (elim out.error [
      | none ↦ some out
      | some e ↦ if contains_text e "phases missing" then none else some out
    ])

  -- `applyRunnerResult`; `none` is for a result that is not handled.
  unfoldable pub apply_runner_result : Job → RunnerResult → String → Op (Option Outcome)
  apply_runner_result j rr dir =
      if not (rr.mode == "model")
      then pure none
      else if j.action == "run-planning" || j.action == "run-followup-planning"
      then handled (apply_model_planning clock.now j rr)
      else if j.action == "run-implementation"
      then handled (do
        (out, _) ←
            apply_model_implementation_opts clock.rfc3339 clock.now hosts.session_files hosts.limits
              (hosts.session dir) j false rr (hosts.session_state dir)
        pure out)
      else if j.action == "run-review" || j.action == "run-qa-fix"
      then handled (deep_review j)
      else if j.action == "run-ideation"
      then (if is_empty rr.ideas
          then pure none
          else handled (apply_model_ideation clock.rfc3339 clock.idea_id clock.now j rr))
      else if j.action == "run-roadmap-discovery"
      then (if can_discover rr
          then handled (apply_model_roadmap_discovery clock.rfc3339 clock.phase_id clock.now j rr)
          else pure none)
      else if j.action == "run-roadmap-competitor"
      then (if rr.competitor == "" then pure none else handled (hosts.model_competitor j rr))
      else if j.action == "run-roadmap-features"
      then (if is_empty rr.features && trim_space rr.vision == "" && is_empty rr.phases
          then pure none
          else unless_phases_missing (
              apply_model_roadmap_features clock.rfc3339 clock.phase_id clock.feat_id clock.now j
                rr))
      else pure none

  abbrev pub in_place : String → Op Outcome → Op (Outcome × String)
  in_place execution m = do out ← m; pure (out, execution)

  -- The switch over the actions, with the execution that is recorded.
  unfoldable pub builtin_action : String → String → Job → Op (Outcome × String)
  builtin_action execution dir j =
      let here = in_place execution in
      let now = clock.now in
      let a = j.action in
      if a == "run-planning" || a == "run-followup-planning"
      then here (builtin_planning now j)
      else if a == "run-implementation"
      then here (builtin_implementation_opts clock.rfc3339 now j false)
      else if a == "run-review" || a == "run-qa-fix"
      then here (deep_review j)
      else if a == "run-pipeline"
      then (do
        (out, used_container) ← run_pipeline (hosts.pipeline_steps j dir) now j
        pure (out, if used_container then "container" else "builtin"))
      else if a == "recover-subtask"
      then here (builtin_recover now j)
      else if a == "mark-stuck"
      then here (builtin_mark_stuck now j)
      else if a == "pause-task"
      then here (builtin_pause now j)
      else if a == "resume-task"
      then here (builtin_resume now j)
      else if a == "generate-changelog"
      then here (builtin_changelog clock.rfc3339 now j)
      else if a == "run-roadmap-discovery"
      then here (builtin_roadmap_discovery clock.rfc3339 clock.phase_id now j)
      else if a == "run-roadmap-features"
      then here (builtin_roadmap_features clock.rfc3339 clock.phase_id clock.feat_id now j)
      else if a == "run-roadmap-competitor"
      then here (hosts.builtin_competitor j)
      else if a == "run-roadmap-publish"
      then here (hosts.builtin_publish j)
      else if a == "run-ideation"
      then here (builtin_ideation clock.rfc3339 clock.idea_id now j)
      else if a == "skip-to-phase"
      then here (builtin_skip_to_phase now j)
      else here (
          failed_with "Unknown action; no artifacts written."
            ("unsupported action \"" <> a <> "\""))
