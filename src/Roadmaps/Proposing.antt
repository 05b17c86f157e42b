-- ===== src/Roadmaps/Proposing.antt =====
-- `applyModelRoadmapFeatures` of model_apply.go and `builtinRoadmapFeatures` of job_runner.go, as
-- operations on the stored roadmap.
use opm_api.Prelude.{
  ℕ, ◌+◌, ◌%◌, zero, suc, String, Bool, true, false, not, ◌&&◌, ◌||◌, none, some, List, [], ◌∷◌,
  ◌++◌, ◌<>◌, ◌==◌, ok, err, is_empty, length, show, nz, contains, insert, trim_space, to_lower,
  map, nat_eq, if◌then◌else◌,
}
use opm_api.Models.{Time, Project, Json, RoadmapPhase, RoadmapFeature, Roadmap, Job}
use opm_api.World.{Op, ignore, try, value_or, ◌>>=◌, ◌>>◌}
use opm_api.Store.Documents.{get_roadmap, put_roadmap, append_project_log}
use opm_api.Results.{RunnerResult}
use opm_api.Runner.{Outcome, done_with, failed_with, or_fail}
use opm_api.Roadmaps.{key_of, validate_roadmap_json}
use opm_api.Roadmaps.Features.{Adding, featured}
use opm_api.Roadmaps.Discovering.{
  no_roadmap, project_label, project_context, apply_model_roadmap_discovery,
  builtin_roadmap_discovery,
}

-- Whether the result can start a roadmap.
abbrev pub can_discover : RunnerResult → Bool
can_discover rr =
    not (is_empty rr.phases)
    || not (trim_space rr.vision == "")
    || elim rr.discovery_blob [ none ↦ false | some _ ↦ true ]

-- The item `i` of a list that is taken round and round; the list is not empty.
unfoldable pub nth_or : String → ℕ → List String → String
nth_or d i [] = d
nth_or d zero (x ∷ xs) = x
nth_or d (suc i) (x ∷ xs) = nth_or d i xs

abbrev pub seed_titles : List String → List String
seed_titles titles =
    if is_empty titles
    then "Board workflow polish" ∷ "Task automation reliability" ∷ "Operator visibility" ∷ []
    else titles

-- The state of the builtin loop: the features, the keys of the titles there, and the count.
pub record Seeding : Type 0 where
  pub features : List RoadmapFeature
  pub taken : List String
  pub added : ℕ

module _ (new_id : ℕ → String) (p : Project) where
  abbrev pub seeded_feature : ℕ → RoadmapPhase → String → RoadmapFeature
  seeded_feature i ph title = record {
    id = new_id i;
    title = title;
    description =
        "Agent-assisted feature for phase \""
        <> ph.name
        <> "\" based on project "
        <> nz p.owner_repo p.name
        <> ".";
    rationale = "Generated by OPM builtin roadmap features agent from board/project signals.";
    priority = "medium";
    complexity = "m";
    impact = "operator productivity";
    phase_id = ph.id;
    dependencies = [];
    status = "planned";
    acceptance_criteria = "Behavior documented" ∷ "Verified on board or jobs UI" ∷ [];
    user_stories = [];
    github_milestone_number = 0;
    github_milestone_title = "";
    github_milestone_url = "";
    github_project_id = "";
    github_project_item_id = "";
  }

  -- One title for a phase. `new_id i` is what `shortID("feat")` answers when `i` features are added.
  unfoldable pub seed_title :
      RoadmapPhase → String → RoadmapPhase × Seeding → RoadmapPhase × Seeding
  unfolding to_lower contains
  seed_title ph title (own, s) =
      let key = to_lower title in
      let feat = seeded_feature s.added ph title in
      if contains s.taken key then (own, s) else (
        record own { features = own.features ++ feat.id ∷ [] },
        record { features = s.features ++ feat ∷ []; taken = key ∷ s.taken; added = s.added + 1 },
      )

  -- The loop over the phases, counted from `i`, with the titles of the tasks as seeds.
  unfoldable pub seed_phases :
      List String → ℕ → List RoadmapPhase → Seeding → List RoadmapPhase × Seeding
  unfolding seed_title nth_or
  seed_phases seeds i [] s = ([], s)
  seed_phases seeds i (ph ∷ phs) s =
      let first = ph.name <> ": " <> nth_or "" (i % length seeds) seeds in
      let second = ph.name <> " checklist for " <> project_label p in
      let (own, s₁) = seed_title ph second (seed_title ph first (ph, s)) in
      let (rest, s₂) = seed_phases seeds (i + 1) phs s₁ in (own ∷ rest, s₂)

module _ (rfc3339 : Time → String) (phase_id feat_id : ℕ → String) (now : Time) (j : Job) where
  abbrev added_line : RunnerResult → Adding → String
  added_line rr s =
      "["
      <> j.run_id
      <> "] features agent added "
      <> show s.added
      <> " feature(s) (model/"
      <> nz rr.model "?"
      <> "; skipped="
      <> show s.skipped
      <> ")\n"

  -- What follows where the roadmap has phases.
  unfoldable pub add_model_features : RunnerResult → Roadmap → Op Outcome
  unfolding featured validate_roadmap_json
  add_model_features rr rm =
      let (after, s) = featured feat_id j.run_id rr rm in
      if nat_eq s.added 0
      then done_with (
          "Roadmap features (model/"
          <> nz rr.model "model"
          <> "): added 0 (duplicates/implemented="
          <> show s.skipped
          <> ").")
      else (do
        r ← try (put_roadmap now j.project_id after)
        or_fail "Failed to write roadmap features" r do
          ignore (append_project_log now j.project_id "run-roadmap-features" (added_line rr s))
          done_with (
              "Roadmap features (model/"
              <> nz rr.model "model"
              <> "): added "
              <> show s.added
              <> " feature(s) across "
              <> show (length after.phases)
              <> " phase(s)."
              <> elim (validate_roadmap_json after) [
                | none ↦ ""
                | some e ↦ " Not publishable yet: " <> e
              ]))

  -- Without phases the builtin features take over.
  abbrev pub with_phases : RunnerResult → Roadmap → Op Outcome
  with_phases rr rm =
      if is_empty rm.phases
      then failed_with "" "phases missing after model features"
      else add_model_features rr rm

  unfoldable pub apply_model_roadmap_features : RunnerResult → Op Outcome
  unfolding add_model_features apply_model_roadmap_discovery
  apply_model_roadmap_features rr = do
    stored ← value_or no_roadmap (get_roadmap now j.project_id)
    if is_empty stored.phases && can_discover rr
        then (do
          found ← apply_model_roadmap_discovery rfc3339 phase_id now j rr
          elim found.error [
            | some e ↦ failed_with "Discovery bootstrap failed" e
            | none ↦ do
              again ← try (get_roadmap now j.project_id)
              elim again [ err e ↦ failed_with "Roadmap missing" e | ok rm ↦ with_phases rr rm ]
          ])
        else with_phases rr stored

  abbrev seeded_line : ℕ → String
  seeded_line added =
      "[" <> j.run_id <> "] features agent added " <> show added <> " feature(s) (builtin)\n"

  unfoldable pub seed_features : Project → List String → Roadmap → Op Outcome
  unfolding seed_phases key_of insert
  seed_features p titles rm =
      let start : Seeding = record {
        features = rm.features;
        taken = map (λ f. key_of f.title) rm.features;
        added = 0;
      } in
      let (phases, s) = seed_phases feat_id p (seed_titles titles) 0 rm.phases start in
      let after : Roadmap = record rm {
        phases = phases;
        features = s.features;
        metadata = insert "last_features_run" (Json.str j.run_id) rm.metadata;
      } in
      (do
        r ← try (put_roadmap now j.project_id after)
        or_fail "Failed to write roadmap features" r do
          ignore (append_project_log now j.project_id "run-roadmap-features" (seeded_line s.added))
          done_with (
              "Roadmap features (builtin): added "
              <> show s.added
              <> " feature(s) across "
              <> show (length phases)
              <> " phase(s)."))

  abbrev no_phases : Op Outcome
  no_phases = failed_with "No roadmap phases after discovery" "phases missing"

  unfoldable pub builtin_roadmap_features : Op Outcome
  unfolding seed_features builtin_roadmap_discovery
  builtin_roadmap_features = do
    context ← try (project_context now j.project_id)
    elim context [
      | err e ↦ failed_with "Project not found" e
      | ok (p, titles) ↦ do
        stored ← try (get_roadmap now j.project_id)
        elim stored [
          | err e ↦ failed_with "Roadmap missing" e
          | ok rm ↦
              if is_empty rm.phases
              then (do
                found ← builtin_roadmap_discovery rfc3339 phase_id now j
                elim found.error [
                  | some e ↦ failed_with "No phases — discovery failed" e
                  | none ↦ do
                    again ← try (get_roadmap now j.project_id)
                    elim again [
                      | err _ ↦ no_phases
                      | ok rm' ↦
                          if is_empty rm'.phases then no_phases else seed_features p titles rm'
                    ]
                ])
              else seed_features p titles rm
        ]
    ]
