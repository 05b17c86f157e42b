-- ===== src/Roadmaps/Features.antt =====
-- `applyModelRoadmapFeatures` of model_apply.go: the features that a run proposes.
pub mod Laws
use opm_api.Prelude.{
  ℕ, ◌+◌, String, Bool, true, false, not, ◌&&◌, ◌||◌, Option, none, some, List, [], ◌∷◌, ◌++◌, ◌<>◌,
  ◌==◌, Dict, Result, ok, err, is_empty, length, show, nz, contains, insert, delete, trim_space,
  to_lower, nat_eq, if◌then◌else◌, map,
}
use opm_api.Models.{Time, RoadmapPhase, RoadmapFeature, Roadmap, Json, Job}
use opm_api.World.{Op, pure, ignore, try, value_or, ◌>>=◌, ◌>>◌}
use opm_api.Store.Documents.{get_roadmap, put_roadmap, append_project_log}
use opm_api.Results.{RunnerResult}
use opm_api.Runner.{Outcome, done_with, failed_with, or_fail}
use opm_api.Roadmaps.{key_of, validate_roadmap_json}
use opm_api.Roadmaps.Phases.{or_default}

-- `phaseIDs[id]`.
unfoldable pub has_id : String → List RoadmapPhase → Bool
has_id id [] = false
has_id id (p ∷ ps) = p.id == id || has_id id ps

-- `phaseByName[name]`: the id of the last phase of that name.
unfoldable pub id_by_name : String → List RoadmapPhase → Option String
unfolding key_of
id_by_name name [] = none
id_by_name name (p ∷ ps) = elim (id_by_name name ps) [
  | some id ↦ some id
  | none ↦ if key_of p.name == name then some p.id else none
]

-- The id of a phase of the roadmap for what the run proposes; `first` is the first phase's.
unfoldable pub resolve_phase : String → List RoadmapPhase → String → String
unfolding has_id id_by_name to_lower
resolve_phase first phases wanted =
    if wanted == ""
    then first
    else if has_id wanted phases
    then wanted
    else or_default (elim (id_by_name (to_lower wanted) phases) [ some id ↦ id | none ↦ first ])
        first

-- The loop that lists the feature under its phase.
unfoldable pub list_under : String → String → List RoadmapPhase → List RoadmapPhase
list_under phase_id fid [] = []
list_under phase_id fid (p ∷ ps) =
    let later = p ∷ list_under phase_id fid ps in
    if p.id == phase_id then record p { features = p.features ++ fid ∷ [] } ∷ ps else later

-- The loop's state: the roadmap's phases and features, the keys of the titles that are taken, and the
-- counts of those added and skipped.
pub record Adding : Type 0 where
  pub phases : List RoadmapPhase
  pub features : List RoadmapFeature
  pub taken : List String
  pub added : ℕ
  pub skipped : ℕ

module _ (new_id : ℕ → String) (model first : String) where
  abbrev pub new_feature : ℕ → RoadmapFeature → String → RoadmapFeature
  new_feature i feat phase_id = record {
    id = or_default (trim_space feat.id) (new_id i);
    title = trim_space feat.title;
    description = trim_space feat.description;
    rationale =
        nz (trim_space feat.rationale)
          ("Generated by OPM model roadmap features (" <> nz model "auto" <> ").");
    priority = or_default (trim_space feat.priority) "should";
    complexity = trim_space feat.complexity;
    impact = trim_space feat.impact;
    phase_id = phase_id;
    dependencies = feat.dependencies;
    status = or_default (trim_space feat.status) "planned";
    acceptance_criteria = feat.acceptance_criteria;
    user_stories = feat.user_stories;
    github_milestone_number = 0;
    github_milestone_title = "";
    github_milestone_url = "";
    github_project_id = "";
    github_project_item_id = "";
  }

  -- What one proposal does. `new_id i` is what `shortID("feat")` answers for the proposal `i`.
  unfoldable pub add_feature : ℕ → RoadmapFeature → Adding → Adding
  unfolding key_of resolve_phase list_under trim_space
  add_feature i feat s =
      let key = key_of feat.title in
      let phase_id = resolve_phase first s.phases (trim_space feat.phase_id) in
      let new = new_feature i feat phase_id in
      if trim_space feat.title == ""
      then s
      else if contains s.taken key
      then record s { skipped = s.skipped + 1 }
      else record s {
        phases = list_under phase_id new.id s.phases;
        features = s.features ++ new ∷ [];
        taken = key ∷ s.taken;
        added = s.added + 1;
      }

  unfoldable pub add_features : ℕ → List RoadmapFeature → Adding → Adding
  unfolding add_feature
  add_features i [] s = s
  add_features i (feat ∷ rest) s = add_features (i + 1) rest (add_feature i feat s)

abbrev pub first_id : List RoadmapPhase → String
first_id [] = ""
first_id (p ∷ _) = p.id

-- The keys of the titles that are there: a title that is implemented is one of them.
abbrev pub start_adding : Roadmap → Adding
start_adding rm = record {
  phases = rm.phases;
  features = rm.features;
  taken = map (λ f. key_of f.title) rm.features;
  added = 0;
  skipped = 0;
}

abbrev pub metadata_after : String → String → Dict Json → Dict Json
metadata_after run_id model m =
    insert "features_source" (Json.str ("model/" <> nz model "model"))
      (insert "last_features_run" (Json.str run_id) m)

-- The error of the validation is recorded, or the record of an earlier one goes.
abbrev pub with_validation : Option String → Dict Json → Dict Json
with_validation (some e) m = insert "validation_error" (Json.str e) m
with_validation none m = delete "validation_error" m

-- The roadmap with the features, and what is recorded of its validation.
unfoldable pub featured : (ℕ → String) → String → RunnerResult → Roadmap → Roadmap × Adding
unfolding add_features validate_roadmap_json
featured new_id run_id rr rm =
    let s = add_features new_id rr.model (first_id rm.phases) 0 rr.features (start_adding rm) in
    let rm' = record rm {
      phases = s.phases;
      features = s.features;
      metadata = metadata_after run_id rr.model rm.metadata;
    } in
    (record rm' { metadata = with_validation (validate_roadmap_json rm') rm'.metadata }, s)
