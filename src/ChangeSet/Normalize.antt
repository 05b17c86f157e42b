-- ===== src/ChangeSet/Normalize.antt =====
-- `mode`, `normalizeChangeSet` and `changeSetFromRunner` of delivery_changes.go.
pub mod Laws
use opm_api.Prelude.{
  String, Bool, true, false, Option, none, some, List, [], ◌∷◌, ◌<>◌, ◌==◌, contains, trim_space,
  join, is_empty, map, if◌then◌else◌, not,
}
use opm_api.Models.{Time}
use opm_api.ChangeSet.Types.{FileChange, ChangeSet}

unfoldable pub mode : FileChange → String
mode f =
    if f.delete
    then "delete"
    else if not (f.patch == "")
    then "patch"
    else elim f.contents [ none ↦ "empty" | some _ ↦ "write" ]

unfoldable pub trimmed : FileChange → FileChange
trimmed f = record f { path = trim_space f.path }

-- Why an entry is dropped, where `seen` are the paths that were kept; `none` where it is kept.
unfoldable pub drop_reason : List String → FileChange → Option String
unfolding mode
drop_reason seen f =
    if f.path == ""
    then some "(blank path)"
    else if mode f == "empty"
    then some (f.path <> " (no contents, patch or delete)")
    else if contains seen f.path
    then some (f.path <> " (duplicate)")
    else none

-- The loop. `seen` is the map of the paths that were kept, as a list.
unfoldable pub normalize_from : List String → List FileChange → List FileChange × List String
normalize_from seen [] = ([], [])
normalize_from seen (f ∷ fs) =
    let f' = trimmed f in
    elim (drop_reason seen f') [
      | some why ↦ let (kept, dropped) = normalize_from seen fs in (kept, why ∷ dropped)
      | none ↦ let (kept, dropped) = normalize_from (f'.path ∷ seen) fs in (f' ∷ kept, dropped)
    ]

unfoldable pub normalize_change_set : List FileChange → List FileChange × List String
unfolding normalize_from
normalize_change_set fs = normalize_from [] fs

abbrev pub paths : List FileChange → List String
paths fs = map (λ f. f.path) fs

-- The note that explains dropped entries, or an empty set.
unfoldable pub runner_note : List FileChange → List String → String
runner_note kept dropped =
    let note = if is_empty dropped then "" else "dropped unusable entries: " <> join "; " dropped in
    if is_empty kept
    then (if note == "" then "the runner returned no file changes" else note)
    else note

-- `changeSetFromRunner`, for the files, the model and the message of a runner's result.
unfoldable pub change_set_from_runner :
    Time → String → List FileChange → String → String → ChangeSet
change_set_from_runner now run_id files model message =
    let (kept, dropped) = normalize_change_set files in
    record {
      run_id = run_id;
      source = "model";
      model = model;
      commit_message = trim_space message;
      recorded_at = now;
      files = kept;
      note = runner_note kept dropped;
    }
