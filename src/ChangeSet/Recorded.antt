-- ===== src/ChangeSet/Recorded.antt =====
-- The recorded change set of a spec: `changes.json` in its directory.
pub mod Laws
use opm_api.Prelude.{String, Bool, Option, none, some, List, [], lookup, nat_eq, if◌then◌else◌}
use opm_api.Models.{Time, Project}
use opm_api.World.{File, Op, Done, pure, ignore, ◌>>=◌, ◌>>◌}
use opm_api.World.Layout.{with_project}
use opm_api.Store.Tasks.{spec_or_empty, read_spec, write_spec}
use opm_api.ChangeSet.Types.{ChangeSet}
use opm_api.ChangeSet.Merge.{merge_change_set}

-- `ChangeSet{Files: []FileChange{}}`.
abbrev pub no_changes : ChangeSet
no_changes = record {
  run_id = "";
  source = "";
  model = "";
  commit_message = "";
  recorded_at = 0;
  files = [];
  note = "";
}

unfoldable pub dated : Time → ChangeSet → ChangeSet
dated now cs = record cs { recorded_at = if nat_eq cs.recorded_at 0 then now else cs.recorded_at }

-- The body of `ClearChangeSet` under the lock.
unfoldable pub remove_changes : Project → String → Op Done
remove_changes p spec_id w = elim (spec_or_empty (lookup spec_id (w.projects p.id).specs)).changes [
  | none ↦ pure tt w
  | some _ ↦ write_spec File.changes p spec_id (λ d. record d { changes = none }) w
]

module _ (now : Time) where
  unfoldable pub put_change_set : String → String → ChangeSet → Op Done
  unfolding dated
  put_change_set project_id spec_id cs =
      with_project now project_id
        (λ p. write_spec File.changes p spec_id (λ d. record d { changes = some (dated now cs) }))

  -- A file that is not there is the empty change set.
  unfoldable pub get_change_set : String → String → Op ChangeSet
  get_change_set project_id spec_id = with_project now project_id (λ p.
      read_spec (λ d. elim d.changes [ none ↦ some no_changes | some cs ↦ some cs ]) p spec_id)

  unfoldable pub put_change_set_merged : String → String → ChangeSet → Op Done
  put_change_set_merged project_id spec_id delta = do
    base ← get_change_set project_id spec_id
    put_change_set project_id spec_id (merge_change_set now base delta)

  -- The removal of the file. Where it is not there, nothing is done and nothing fails.
  unfoldable pub clear_change_set : String → String → Op Done
  unfolding remove_changes
  clear_change_set project_id spec_id = with_project now project_id (λ p. remove_changes p spec_id)
