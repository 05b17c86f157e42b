-- ===== src/Roadmaps/Discovering.antt =====
-- `applyModelRoadmapDiscovery` of model_apply.go and `builtinRoadmapDiscovery` of job_runner.go.
use opm_api.Prelude.{
  ℕ, ◌+◌, String, Option, none, some, List, [], ◌∷◌, ◌<>◌, ◌==◌, Dict, ok, err, is_empty, length,
  show, nz, lookup, insert, trim_space, if◌then◌else◌,
}
use opm_api.Models.{Time, Project, Task, Json, Items, Fields, RoadmapPhase, Roadmap, Job}
use opm_api.World.{Op, pure, ignore, try, value_or, ◌>>=◌, ◌>>◌}
use opm_api.World.Layout.{get_project}
use opm_api.Store.Documents.{list_tasks, get_roadmap, put_roadmap, append_project_log}
use opm_api.Results.{RunnerResult}
use opm_api.Runner.{Outcome, done_with, failed_with, or_fail}
use opm_api.Roadmaps.Phases.{or_default, order_or, merge_roadmap_phases}

-- `Roadmap{}`.
abbrev pub no_roadmap : Roadmap
no_roadmap = record {
  id = "";
  project_name = "";
  version = "";
  vision = "";
  target_audience = "";
  phases = [];
  features = [];
  metadata = [];
}

-- `v.(string)`, and the text of a field that is one.
abbrev pub as_string : Option Json → Option String
as_string (some (Json.str s)) = some s
as_string _ = none

-- A field of an object; a key stands in it once.
unfoldable pub field_of : String → Fields → Option Json
field_of key Fields.end = none
field_of key (Fields.field k v rest) = if k == key then some v else field_of key rest

abbrev pub text_in : String → Option Json → Option String
text_in key (some (Json.obj fields)) = as_string (field_of key fields)
text_in key _ = none

abbrev pub trimmed_text : Option String → String
trimmed_text none = ""
trimmed_text (some s) = trim_space s

unfoldable pub compact_audience : Option Json → String
unfolding field_of trim_space
compact_audience (some (Json.str s)) = trim_space s
compact_audience (some (Json.obj fields)) =
    let persona = trimmed_text (as_string (field_of "primary_persona" fields)) in
    let primary = trimmed_text (as_string (field_of "primary" fields)) in
    let who = if persona == "" then primary else persona in
    let usage = trimmed_text (as_string (field_of "usage_context" fields)) in
    if who == "" then usage else if usage == "" then who else who <> " — " <> usage
compact_audience _ = ""

abbrev pub blob_at : String → RunnerResult → Option Json
blob_at key rr = elim rr.discovery_blob [ none ↦ none | some blob ↦ lookup key blob ]

-- The vision and the audience that the result gives, if any.
unfoldable pub told_vision : RunnerResult → String
unfolding field_of trim_space lookup
told_vision rr =
    let own = trim_space rr.vision in
    if own == "" then trimmed_text (text_in "one_liner" (blob_at "product_vision" rr)) else own

unfoldable pub told_audience : RunnerResult → String
unfolding compact_audience trim_space lookup
told_audience rr =
    let own = trim_space rr.target_audience in
    if own == "" then compact_audience (blob_at "target_audience" rr) else own

-- What both discoveries put where it is blank.
abbrev pub with_basics : String → Roadmap → Roadmap
with_basics name rm = record rm {
  id = or_default rm.id "roadmap-1";
  project_name = or_default rm.project_name name;
  version = or_default rm.version "0.1.0";
}

abbrev pub project_label : Project → String
project_label p = nz p.name p.owner_repo

abbrev pub fields_of : Dict Json → Fields
fields_of [] = Fields.end
fields_of ((k, v) ∷ rest) = Fields.field k v (fields_of rest)

abbrev pub with_blob : Option (Dict Json) → Dict Json → Dict Json
with_blob none m = m
with_blob (some blob) m = insert "discovery" (Json.obj (fields_of blob)) m

abbrev pub strings : List String → Items
strings [] = Items.nil
strings (s ∷ ss) = Items.cons (Json.str s) (strings ss)

abbrev pub with_signals : List String → Dict Json → Dict Json
with_signals titles m =
    if is_empty titles then m else insert "board_signals" (Json.arr (strings titles)) m

-- The titles that are not blank.
unfoldable pub titles_of : List Task → List String
unfolding trim_space
titles_of [] = []
titles_of (t ∷ ts) =
    let rest = titles_of ts in if trim_space t.title == "" then rest else t.title ∷ rest

-- `projectContext`: the project, and the titles of its tasks.
unfoldable pub project_context : Time → String → Op (Project × List String)
unfolding titles_of
project_context now project_id = do
  p ← get_project project_id
  tasks ← value_or [] (list_tasks now project_id)
  pure (p, titles_of tasks)

-- The loop that fills in what a phase has not; the phases are counted from `i`.
unfoldable pub completed_phases : ℕ → List RoadmapPhase → List RoadmapPhase
completed_phases i [] = []
completed_phases i (p ∷ ps) =
    record p { status = or_default p.status "planned"; order = order_or p.order (i + 1) }
    ∷ completed_phases (i + 1) ps

module _ (rfc3339 : Time → String) (new_id : ℕ → String) (now : Time) (j : Job) where
  unfoldable pub discovered : Project → RunnerResult → Roadmap → Roadmap
  unfolding told_vision told_audience merge_roadmap_phases insert
  discovered p rr rm₀ =
      let rm = with_basics (project_label p) rm₀ in
      record rm {
        vision = or_default (told_vision rr) rm.vision;
        target_audience = or_default (told_audience rr) rm.target_audience;
        phases = merge_roadmap_phases new_id rm.phases rr.phases;
        metadata = with_blob rr.discovery_blob (
            insert "discovery_source" (Json.str ("model/" <> nz rr.model "model")) (
              insert "discovered_at" (Json.str (rfc3339 now))
                (insert "last_discovery_run" (Json.str j.run_id) rm.metadata)));
      }

  unfoldable pub apply_model_roadmap_discovery : RunnerResult → Op Outcome
  unfolding discovered
  apply_model_roadmap_discovery rr = do
    found ← try (get_project j.project_id)
    elim found [
      | err e ↦ failed_with "Project not found" e
      | ok p ↦ do
        stored ← value_or no_roadmap (get_roadmap now j.project_id)
        let rm = discovered p rr stored
        r ← try (put_roadmap now j.project_id rm)
        or_fail "Failed to write roadmap.json" r do
          ignore (
              append_project_log now j.project_id "run-roadmap-discovery" (
                "["
                <> j.run_id
                <> "] discovery wrote vision + "
                <> show (length rm.phases)
                <> " phase(s) (model/"
                <> nz rr.model "?"
                <> ")\n"))
          done_with (
              "Roadmap discovery (model/"
              <> nz rr.model "model"
              <> "): vision set; "
              <> show (length rm.phases)
              <> " phase(s).")
    ]

  abbrev pub planned_phase : ℕ → String → String → RoadmapPhase
  planned_phase i name description = record {
    id = new_id i;
    name = name;
    description = description;
    order = i;
    status = "planned";
    features = [];
    github_milestone_number = 0;
    github_milestone_title = "";
    github_milestone_url = "";
  }

  abbrev pub first_phases : String → List RoadmapPhase
  first_phases name =
      planned_phase 1 "Foundation" ("Core board, auth, and project linking for " <> name)
      ∷ planned_phase 2 "Automation" "Task planning, implementation, and review loops"
      ∷ planned_phase 3 "Insights" "Roadmap, ideation, and changelog quality for operators"
      ∷ []

  unfoldable pub builtin_discovered : Project → List String → Roadmap → Roadmap
  unfolding completed_phases insert
  builtin_discovered p titles rm₀ =
      let name = project_label p in
      let rm = with_basics name rm₀ in
      record rm {
        vision =
            "Deliver a reliable "
            <> name
            <> " experience for operators: clear board workflow, automated task planning, and a living product roadmap grounded in "
            <> nz p.owner_repo "the linked GitHub repository"
            <> ".";
        target_audience = "Engineering and product operators who manage GitHub-linked work in OPM.";
        phases = if is_empty rm.phases then first_phases name else completed_phases 0 rm.phases;
        metadata = with_signals titles (
            insert "discovered_at" (Json.str (rfc3339 now))
              (insert "last_discovery_run" (Json.str j.run_id) rm.metadata));
      }

  unfoldable pub builtin_roadmap_discovery : Op Outcome
  unfolding builtin_discovered
  builtin_roadmap_discovery = do
    context ← try (project_context now j.project_id)
    elim context [
      | err e ↦ failed_with "Project not found" e
      | ok (p, titles) ↦ do
        stored ← value_or no_roadmap (get_roadmap now j.project_id)
        let rm = builtin_discovered p titles stored
        r ← try (put_roadmap now j.project_id rm)
        or_fail "Failed to write roadmap.json" r do
          ignore (
              append_project_log now j.project_id "run-roadmap-discovery" (
                "["
                <> j.run_id
                <> "] discovery wrote vision + "
                <> show (length rm.phases)
                <> " phase(s) (builtin)\n"))
          done_with (
              "Roadmap discovery (builtin): vision set; "
              <> show (length rm.phases)
              <> " phase(s); "
              <> show (length titles)
              <> " board task signal(s).")
    ]
