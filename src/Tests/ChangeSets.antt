-- ===== src/Tests/ChangeSets.antt =====
-- Change sets: a merge, the cleaning of a runner's entries, the paths, an application and a record.
use opm_api.Store.Jobs.{fresh_job}
use opm_api.Prelude.{
  contains_text, has_prefix, join, ℕ, ◌+◌, ◌≤◌, String, false, ◌&&◌, some, List, [], ◌∷◌, ◌==◌, ◌≡◌,
  refl, arith, ok, err, count, find, is_empty, length, map, split, trim_space,
}
use opm_api.World.{World}
use opm_api.ChangeSet.Types.{FileChange, ChangeSet}
use opm_api.ChangeSet.Normalize.{normalize_change_set, paths, trimmed}
use opm_api.ChangeSet.Normalize.Laws.{is_at, is_usable, normalize_change_set-first_usable}
use opm_api.ChangeSet.Merge.{merge_files}
use opm_api.ChangeSet.Merge.Laws.{last_at, overridden, merge_files-overridden}
use opm_api.ChangeSet.Paths.{path_rejection, reverse_onto}
use opm_api.ChangeSet.Paths.Laws.{descend, first_of, path_rejection-descend}
use opm_api.ChangeSet.Apply.{Limits, absent, Workspace, apply_change_set}
use opm_api.ChangeSet.Normalize.{mode}
use opm_api.ChangeSet.Apply.Laws.{no_patches, apply_change_set-Keeps}
use opm_api.ChangeSet.Recorded.{no_changes, put_change_set_merged, get_change_set, clear_change_set}
use opm_api.ChangeSet.Recorded.Laws.{recorded, put_merged-get-clear}
use opm_api.Runner.Implementing.Laws.{own}
use opm_api.Tests.Demo
use opm_api.Tests.Runners.{demo-At}

abbrev file : String → String → FileChange
file path text = record { path = path; contents = some text; patch = ""; delete = false }

abbrev base : List FileChange
base = file "a" "1" ∷ file "b" "2" ∷ []

abbrev pub delta : List FileChange
delta = file "b" "3" ∷ file "c" "4" ∷ []

abbrev pub change_set : ChangeSet
change_set = record no_changes { files = delta; source = "model" }

merge_files-overridden_example :
    last_at (merge_files base delta) "b" ≡ overridden (last_at base) (last_at delta) "b"
merge_files-overridden_example = merge_files-overridden base delta "b"

normalize_change_set-first_usable_example :
    let (kept, dropped) = normalize_change_set (file " a" "1" ∷ file "a" "2" ∷ []) in
    (length kept + length dropped ≡ 2)
    × (count "a" (paths kept) ≤ 1)
    × (find (is_at "a") kept
        ≡ find (λ f. is_usable f && is_at "a" f) (map trimmed (file " a" "1" ∷ file "a" "2" ∷ [])))
normalize_change_set-first_usable_example =
    normalize_change_set-first_usable (file " a" "1" ∷ file "a" "2" ∷ []) "a"

path_rejection-descend_example :
    (at : List String) × (descend [] (split (trim_space "a/../b/c") "/") ≡ some at)
    × (is_empty at ≡ false)
    × ((first_of (reverse_onto at []) == ".git") ≡ false)
unfolding path_rejection trim_space contains_text has_prefix split join
path_rejection-descend_example = path_rejection-descend "a/../b/c" refl

-- A workspace that counts its operations and has no file to remove.
abbrev pub counting : Workspace ℕ
counting = record {
  resolve = λ s. ok tt;
  remove = λ rel s. (absent, s + 1);
  make_dir = λ rel s. (ok tt, s + 1);
  write_file = λ rel text s. (ok tt, s + 1);
  patch = λ text s. (err "no git", s + 1);
}

abbrev pub limits : Limits
limits = record { max_files = 50; max_bytes = 2097152 }

apply_change_set-Keeps_example : 3 ≤ (apply_change_set counting limits change_set 3).1
unfolding no_patches mode
apply_change_set-Keeps_example =
    apply_change_set-Keeps counting (λ s. 3 ≤ s)
      (record {
        remove_keeps = λ rel safe s h. omega (arith, h);
        make_dir_keeps = λ rel safe s h. omega (arith, h);
        write_keeps = λ rel text safe s h. omega (arith, h);
      })
      limits change_set 3 refl (omega arith)

put_merged-get-clear_example :
    (cs : ChangeSet) × (w₁ : World) × (w₂ : World) × (put_change_set_merged 9 "p1" "001-a"
        change_set Demo.world
      ≡ (ok tt, w₁))
    × ((get_change_set 9 "p1" "001-a" w₁).0 ≡ ok cs)
    × (last_at cs.files "b"
        ≡ overridden (last_at (recorded Demo.view).files) (last_at change_set.files) "b")
    × (clear_change_set 9 "p1" "001-a" w₁ ≡ (ok tt, w₂))
    × ((get_change_set 9 "p1" "001-a" w₂).0 ≡ ok no_changes)
unfolding fresh_job
put_merged-get-clear_example =
    put_merged-get-clear (own Demo.project Demo.job) Demo.job.spec_id 9 demo-At change_set "b"
