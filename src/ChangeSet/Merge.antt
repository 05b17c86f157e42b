-- ===== src/ChangeSet/Merge.antt =====
-- `MergeChangeSet` of delivery_changes.go.
pub mod Laws
use opm_api.Prelude.{
  String, Bool, false, Option, none, some, List, [], ◌∷◌, ◌++◌, ◌==◌, nat_eq, update, map,
  trim_space, if◌then◌else◌,
}
use opm_api.Models.{Time}
use opm_api.ChangeSet.Types.{FileChange, ChangeSet}

-- `map[string]FileChange`.
abbrev pub ByPath : Type 0
ByPath = String → Option FileChange

abbrev pub no_file : FileChange
no_file = record { path = ""; contents = none; patch = ""; delete = false }

-- The first loop: every file is stored under its path, and every path is listed.
unfoldable pub index_base : ByPath → List String → List FileChange → ByPath × List String
index_base by order [] = (by, order)
index_base by order (f ∷ fs) = index_base (update by f.path (some f)) (order ++ f.path ∷ []) fs

-- The second loop lists only the paths that are not there yet.
unfoldable pub index_delta : ByPath → List String → List FileChange → ByPath × List String
index_delta by order [] = (by, order)
index_delta by order (f ∷ fs) =
    index_delta (update by f.path (some f))
      (elim (by f.path) [ none ↦ order ++ f.path ∷ [] | some _ ↦ order ]) fs

unfoldable pub merge_files : List FileChange → List FileChange → List FileChange
merge_files base delta =
    let (by, order) = index_base (λ _. none) [] base in
    let (by', order') = index_delta by order delta in
    map (λ p. elim (by' p) [ none ↦ no_file | some f ↦ f ]) order'

-- `MergeChangeSet`; the zero time is 0.
unfoldable pub merge_change_set : Time → ChangeSet → ChangeSet → ChangeSet
merge_change_set now base delta = record {
  run_id = if delta.run_id == "" then base.run_id else delta.run_id;
  source = if delta.source == "" then base.source else delta.source;
  model = if delta.model == "" then base.model else delta.model;
  commit_message =
      if trim_space delta.commit_message == "" then base.commit_message else delta.commit_message;
  recorded_at = if nat_eq delta.recorded_at 0 then now else delta.recorded_at;
  files = merge_files base.files delta.files;
  note = base.note;
}
