-- ===== src/Ideas/Seeding.antt =====
-- `builtinIdeation` of job_runner.go.
use opm_api.Prelude.{
  ℕ, ◌+◌, String, List, [], ◌∷◌, ◌++◌, ◌<>◌, ◌==◌, ok, err, length, show, nz, contains, insert,
  to_lower, if◌then◌else◌,
}
use opm_api.Models.{Time, Job, Idea, Ideation}
use opm_api.World.{Op, try, ◌>>=◌}
use opm_api.Store.Documents.{ideation_or_empty}
use opm_api.Runner.{Outcome, failed_with}
use opm_api.Roadmaps.Discovering.{project_context}
use opm_api.Ideas.{bucket_of, Merging, start_merging, types_for, ideas_line, store_ideas}

-- The templates of `builtinIdeation`.
unfoldable pub templates : String → String → String → List (String × String)
templates signal label typ =
    if typ == "code_improvements"
    then (
      "Simplify " <> signal <> " paths",
      "Reduce complexity around " <> signal <> " in " <> label,
    )
      ∷ (
        "Shared helpers for board artifacts",
        "Consolidate repeated plan/progress helpers for maintainability",
      )
      ∷ []
    else if typ == "security"
    then (
      "Tighten tenant header checks",
      "Audit org/project header enforcement on sensitive OPM routes",
    )
      ∷ ("Review job cancel authorization", "Ensure cancel and recover actions respect project ACL")
      ∷ []
    else if typ == "performance"
    then ("Cache project board reads", "Trim repeated filesystem reads for hot board polls")
      ∷ ("Batch job status updates", "Reduce write amplification during long implementation loops")
      ∷ []
    else if typ == "documentation"
    then (
      "Document agent job actions", "Operator guide for roadmap, ideation, and skip-to-phase jobs",
    )
      ∷ ("NAS verify checklist", "Curl sequence for health, jobs, and roadmap generators")
      ∷ []
    else if typ == "ui_ux"
    then (
      "Clearer job outcome messaging",
      "Surface execution + message on roadmap/ideation generate buttons",
    )
      ∷ ("Skip-to-phase affordance", "Let operators jump plan phases from task detail")
      ∷ []
    else if typ == "code_quality"
    then (
      "Expand builtin generator tests",
      "Cover roadmap discovery/features and ideation merge behavior",
    )
      ∷ ("Normalize ideation type keys", "Keep underscored types consistent across API and UI")
      ∷ []
    else []

module _ (new_id : ℕ → String) (created : String) where
  abbrev pub seeded_idea : String → ℕ → String → String → Idea
  seeded_idea typ i title description = record {
    id = new_id i;
    type = typ;
    title = title;
    description = description;
    rationale = "Generated by OPM builtin ideation agent.";
    estimated_effort = "S";
    affected_files = [];
    implementation_approach = "";
    status = "open";
    created_at = created;
  }

  unfoldable pub seed_bucket : String → List (String × String) → Merging → Merging
  unfolding contains to_lower
  seed_bucket typ [] m = m
  seed_bucket typ ((title, description) ∷ rest) m =
      let key = to_lower title in
      let seeded = seed_bucket typ rest (record m {
        bucket = m.bucket ++ seeded_idea typ m.added title description ∷ [];
        have = key ∷ m.have;
        added = m.added + 1;
      }) in
      let passed = seed_bucket typ rest m in if contains m.have key then passed else seeded

  unfoldable pub seed_types :
      (String → List (String × String)) → List String → Ideation → ℕ → Ideation × ℕ
  unfolding seed_bucket bucket_of insert
  seed_types seeds [] ideas added = (ideas, added)
  seed_types seeds (typ ∷ types) ideas added =
      let m = seed_bucket typ (seeds typ) (start_merging (bucket_of ideas typ) added 0) in
      seed_types seeds types (insert typ m.bucket ideas) m.added

abbrev pub signal_of : List String → String
signal_of [] = "general product quality"
signal_of (title ∷ _) = title

module _ (rfc3339 : Time → String) (new_id : ℕ → String) (now : Time) (j : Job) where
  unfoldable pub builtin_ideation : Op Outcome
  unfolding seed_types templates store_ideas
  builtin_ideation = do
    context ← try (project_context now j.project_id)
    elim context [
      | err e ↦ failed_with "Project not found" e
      | ok (p, titles) ↦ do
        existing ← ideation_or_empty now j.project_id
        let (ideas, added) =
            seed_types new_id (rfc3339 now) (templates (signal_of titles) (nz p.owner_repo p.name))
              (types_for j) existing 0
        store_ideas rfc3339 new_id now j ideas (ideas_line rfc3339 new_id now j added "builtin") (
            "Ideation (builtin): added "
            <> show added
            <> " idea(s) across "
            <> show (length (types_for j))
            <> " type(s).")
    ]
