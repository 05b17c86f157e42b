-- ===== src/Ideas.antt =====
-- The ideas of a project: `applyModelIdeation` of model_apply.go and `implementedIdeationFromDone` of
-- runner_context.go. `new_id i` is what `shortID("idea")`
-- answers when `i` ideas are added.
pub mod Laws
pub mod Seeding
use opm_api.Prelude.{
  ℕ, ◌+◌, String, Bool, true, false, not, ◌&&◌, ◌||◌, Option, none, some, List, [], ◌∷◌, ◌++◌, ◌<>◌,
  ◌==◌, Dict, Result, ok, err, is_empty, length, show, nz, join, nat_eq, ltb, contains, lookup,
  insert, map, trim_space, to_lower, if◌then◌else◌,
}
use opm_api.Models.{Time, Project, Task, Job, Idea, Ideation, ideation_types}
use opm_api.World.{Op, pure, ignore, try, attempt, value_or, ◌>>=◌, ◌>>◌}
use opm_api.Store.Tasks.{get_board, get_task}
use opm_api.Store.Documents.{ideation_or_empty, put_ideation, append_project_log}
use opm_api.Results.{RunnerResult}
use opm_api.Runner.{Outcome, done_with, failed_with, or_fail}
use opm_api.Roadmaps.{key_of}
use opm_api.Roadmaps.Phases.{or_default}
use opm_api.Roadmaps.Discovering.{project_context}

-- `ideas[typ]`; the ideas of a type that has none are empty.
unfoldable pub bucket_of : Ideation → String → List Idea
unfolding lookup
bucket_of ideas typ = elim (lookup typ ideas) [ none ↦ [] | some bucket ↦ bucket ]

-- The ids and the titles of what the tasks in `done` implement.
pub record Implemented : Type 0 where
  pub ids : List String
  pub titles : List String

abbrev pub listed : String → List String → List String
listed key keys = if key == "" then keys else key ∷ keys

-- What one task in `done` adds to them.
unfoldable pub with_task : String → Task → Implemented → Implemented
unfolding key_of trim_space
with_task ideation_type task done =
    let type = trim_space task.ideation_type_key in
    if not (ideation_type == "") && (not (type == "") && not (type == ideation_type))
    then done
    else record {
      ids = listed (trim_space task.ideation_id) done.ids;
      titles = listed (key_of task.title) done.titles;
    }

module _ (now : Time) (project_id ideation_type : String) where
  unfoldable pub implemented_by : List String → Op Implemented
  unfolding with_task
  implemented_by [] = pure (record { ids = []; titles = [] })
  implemented_by (spec_id ∷ spec_ids) = do
    found ← attempt (get_task now project_id spec_id)
    rest ← implemented_by spec_ids
    pure (elim found [ none ↦ rest | some task ↦ with_task ideation_type task rest ])

  unfoldable pub implemented_ideation_from_done : Op Implemented
  unfolding implemented_by
  implemented_ideation_from_done = do
    board ← attempt (get_board now project_id)
    elim board [ none ↦ implemented_by [] | some b ↦ implemented_by (b "done") ]

-- The loop's state: the ideas of one type, the keys of their titles, and the counts over all types.
pub record Merging : Type 0 where
  pub bucket : List Idea
  pub have : List String
  pub added : ℕ
  pub skipped : ℕ

abbrev pub start_merging : List Idea → ℕ → ℕ → Merging
start_merging bucket added skipped = record {
  bucket = bucket;
  have = map (λ i. key_of i.title) bucket;
  added = added;
  skipped = skipped;
}

-- An idea of the result with what is blank filled in. `foldIdeaExtras` changes nothing.
abbrev pub taken_in : String → String → String → String → Idea → Idea
taken_in typ id created model idea = record {
  id = or_default (trim_space idea.id) id;
  type = typ;
  title = trim_space idea.title;
  description = trim_space idea.description;
  rationale =
      nz (trim_space idea.rationale)
        ("Generated by OPM model ideation (" <> nz model "auto" <> ").");
  estimated_effort = trim_space idea.estimated_effort;
  affected_files = idea.affected_files;
  implementation_approach = trim_space idea.implementation_approach;
  status = or_default (trim_space idea.status) "open";
  created_at = or_default (trim_space idea.created_at) created;
}

module _ (new_id : ℕ → String) (created model : String) (done : Implemented) where
  abbrev pub is_implemented : Idea → Bool
  is_implemented idea =
      (not (trim_space idea.id == "") && contains done.ids (trim_space idea.id))
      || contains done.titles (key_of idea.title)

  -- One idea of a type.
  unfoldable pub merge_idea : String → Idea → Merging → Merging
  unfolding key_of trim_space
  merge_idea typ idea m =
      let new = taken_in typ (new_id m.added) created model idea in
      if trim_space idea.title == "" || contains m.have (key_of idea.title)
      then m
      else if is_implemented idea
      then record m { skipped = m.skipped + 1 }
      else record m {
        bucket = m.bucket ++ new ∷ [];
        have = key_of idea.title ∷ m.have;
        added = m.added + 1;
      }

  unfoldable pub merge_bucket : String → List Idea → Merging → Merging
  unfolding merge_idea
  merge_bucket typ [] m = m
  merge_bucket typ (idea ∷ incoming) m = merge_bucket typ incoming (merge_idea typ idea m)

  -- The loop over the types of the result, in the order of their names; the order of a map is open.
  unfoldable pub merge_ideas : String → Dict (List Idea) → Ideation → ℕ → ℕ → Ideation × ℕ × ℕ
  unfolding merge_bucket bucket_of insert trim_space contains
  merge_ideas only [] ideas added skipped = (ideas, added, skipped)
  merge_ideas only ((key, incoming) ∷ rest) ideas added skipped =
      let typ = trim_space key in
      let m = merge_bucket typ incoming (start_merging (bucket_of ideas typ) added skipped) in
      let passed = merge_ideas only rest ideas added skipped in
      let merged = merge_ideas only rest (insert typ m.bucket ideas) m.added m.skipped in
      if not (contains ideation_types typ)
      then passed
      else if not (only == "") && not (typ == only)
      then passed
      else merged

abbrev pub types_for : Job → List String
types_for j = let t = trim_space j.ideation_type in if t == "" then ideation_types else t ∷ []

module _ (rfc3339 : Time → String) (new_id : ℕ → String) (now : Time) (j : Job) where
  abbrev pub ideas_head : RunnerResult → String
  ideas_head rr = "Ideation (model/" <> nz rr.model "model" <> "): added "

  abbrev pub ideas_tail : String
  ideas_tail = " idea(s) across " <> show (length (types_for j)) <> " type(s)"

  abbrev pub nothing_added : RunnerResult → ℕ → String
  nothing_added rr skipped =
      ideas_head rr
      <> "0"
      <> ideas_tail
      <> " (duplicates, implemented, or empty)."
      <> (if ltb 0 skipped then " Skipped " <> show skipped <> " already-implemented." else "")

  abbrev pub ideas_line : ℕ → String → String
  ideas_line added source =
      "["
      <> j.run_id
      <> "] ideation agent added "
      <> show added
      <> " idea(s) types=["
      <> join " " (types_for j)
      <> "] ("
      <> source
      <> ")\n"

  -- The writing of the ideas, and the message.
  unfoldable pub store_ideas : Ideation → String → String → Op Outcome
  store_ideas ideas line message = do
    r ← try (put_ideation now j.project_id ideas)
    or_fail "Failed to write ideation.json" r
        do ignore (append_project_log now j.project_id "run-ideation" line); done_with message

  unfoldable pub apply_model_ideation : RunnerResult → Op Outcome
  unfolding merge_ideas implemented_ideation_from_done store_ideas
  apply_model_ideation rr =
      if is_empty rr.ideas
      then failed_with "model ideation returned no ideas" "ideas missing"
      else do
        existing ← ideation_or_empty now j.project_id
        done ← implemented_ideation_from_done now j.project_id j.ideation_type
        let (ideas, added, skipped) =
            merge_ideas new_id (rfc3339 now) rr.model done j.ideation_type rr.ideas existing 0 0
        if nat_eq added 0
            then done_with (nothing_added rr skipped)
            else store_ideas ideas
                (ideas_line added
                  ("model/" <> nz rr.model "?" <> "; skipped_implemented=" <> show skipped))
                (ideas_head rr <> show added <> ideas_tail <> ".")
