-- ===== src/Tests/RoadmapRuns.antt =====
-- The merge of phases and the features of a run, on a small roadmap.
use opm_api.Prelude.{
  is_empty, true, false, ℕ, String, none, List, [], ◌∷◌, ◌++◌, ◌≡◌, refl, arith, eq_iff, count,
  lookup, show,
}
use opm_api.Models.{RoadmapPhase, RoadmapFeature, Roadmap}
use opm_api.Results.{RunnerResult}
use opm_api.Roadmaps.{validate_roadmap_json, key_of}
use opm_api.Roadmaps.Phases.{has_bind, merge_roadmap_phases}
use opm_api.Roadmaps.Phases.Laws.{
  bindings, Distinct, merge_roadmap_phases-keeps, merge_roadmap_phases-Distinct,
}
use opm_api.Roadmaps.Features.{featured}
use opm_api.Roadmaps.Features.Laws.{all_named, all_placed, featured-validate}

abbrev pub new_id : ℕ → String
new_id i = show i

abbrev phase : String → String → ℕ → RoadmapPhase
phase id name milestone = record {
  id = id;
  name = name;
  description = "";
  order = 0;
  status = "";
  features = [];
  github_milestone_number = milestone;
  github_milestone_title = "";
  github_milestone_url = "";
}

abbrev bound_phases : List RoadmapPhase
bound_phases = phase "a" "Core" 3 ∷ phase "b" "More" 0 ∷ []

abbrev told_phases : List RoadmapPhase
told_phases = phase "" " core " 0 ∷ phase "" "New" 0 ∷ phase "" "new" 0 ∷ []

abbrev feature : RoadmapFeature
feature = record {
  id = "";
  title = "Fast board";
  description = "";
  rationale = "";
  priority = "";
  complexity = "";
  impact = "";
  phase_id = "nowhere";
  dependencies = [];
  status = "";
  acceptance_criteria = [];
  user_stories = [];
  github_milestone_number = 0;
  github_milestone_title = "";
  github_milestone_url = "";
  github_project_id = "";
  github_project_item_id = "";
}

abbrev roadmap : Roadmap
roadmap = record {
  id = "roadmap-1";
  project_name = "Demo";
  version = "0.1.0";
  vision = "";
  target_audience = "";
  phases = bound_phases;
  features = [];
  metadata = [];
}

abbrev pub told : RunnerResult
told = record {
  mode = "model";
  reason = "";
  model = "m";
  spec_markdown = "";
  plan = none;
  implementation_notes = "";
  files = [];
  commit_message = "";
  ideas = [];
  vision = "";
  target_audience = "";
  phases = [];
  features = feature ∷ feature ∷ [];
  discovery_blob = none;
  competitor = "";
  raw_excerpt = "";
}

merge_roadmap_phases-keeps_example :
    (rest : List (String × String × ℕ)) × (bindings
        (merge_roadmap_phases new_id bound_phases told_phases)
      ≡ bindings bound_phases ++ rest)
unfolding has_bind
merge_roadmap_phases-keeps_example = merge_roadmap_phases-keeps new_id bound_phases told_phases refl

merge_roadmap_phases-Distinct_example :
    Distinct (merge_roadmap_phases new_id bound_phases told_phases)
unfolding count key_of
merge_roadmap_phases-Distinct_example =
    merge_roadmap_phases-Distinct new_id bound_phases told_phases once
  where
    once : Distinct bound_phases
    once a = unfold count in ground (arith, eq_iff "core" a, eq_iff "more" a, eq_iff "core" "more")

featured-validate_example :
    let after = (featured new_id "r1" told roadmap).0 in
    (validate_roadmap_json after ≡ none)
    × (is_empty after.phases ≡ false)
    × (all_named after.phases ≡ true)
    × (all_placed after.phases after.features ≡ true)
    × (lookup "validation_error" after.metadata ≡ none)
unfolding validate_roadmap_json
featured-validate_example = featured-validate new_id "r1" told roadmap refl
