-- ===== src/ChangeSet/Apply.antt =====
-- `applyChangeSet` of delivery_changes.go, over the file system of a workspace.
pub mod Laws
pub mod Reported
use opm_api.Prelude.{
  ℕ, ◌+◌, String, Bool, true, false, not, ◌&&◌, Option, none, some, List, [], ◌∷◌, ◌++◌, ◌<>◌, ◌==◌,
  has_prefix, last_is, nat_eq, Result, ok, err, is_empty, length, ltb, show, split, if◌then◌else◌,
}
use Prim.Native.String.{len}
use Prim.Native.Char.{Char, code}
use opm_api.World.{Done}
use opm_api.ChangeSet.Normalize.{mode}
use opm_api.ChangeSet.Types.{FileChange, ChangeSet}
use opm_api.ChangeSet.Paths.{clean, path_text, path_rejection}

pub record Limits : Type 0 where
  pub max_files : ℕ
  pub max_bytes : ℕ

pub record ApplyOutcome : Type 0 where
  pub applied : List String
  pub skipped : List String
  pub status : String

-- What a removal answers.
pub data Removed : Type 0 where
  removed absent : Removed
  stuck : String → Removed

-- The file system of the workspace: whether its root resolves, the removal, the making of the
-- directory and the writing of one file, and `git apply` of a text, which alone says where it acts.
-- The error of the last is what follows the path in the source's message.
pub record Workspace (S : Type 0) : Type 0 where
  pub resolve : S → Result Done
  pub remove : String → S → Removed × S
  pub make_dir : String → S → Result Done × S
  pub write_file : String → String → S → Result Done × S
  pub patch : String → S → Result Done × S

-- The outcome with its status, and the error.
abbrev pub Applied : Type 0
Applied = ApplyOutcome × Option String

abbrev pub nothing_yet : ApplyOutcome
nothing_yet = record { applied = []; skipped = []; status = "" }

abbrev pub refused : ApplyOutcome → String → String → Applied
refused out status e = (record out { status = status }, some e)

abbrev pub add_applied : String → ApplyOutcome → ApplyOutcome
add_applied rel out = record out { applied = out.applied ++ rel ∷ [] }

unfoldable pub change_bytes : FileChange → ℕ
change_bytes f = len f.patch + elim f.contents [ none ↦ 0 | some c ↦ len c ]

-- The first loop: the first path that is refused, with the reason.
unfoldable pub first_refused : List FileChange → Option String
unfolding path_rejection
first_refused [] = none
first_refused (f ∷ fs) =
    let later = first_refused fs in
    elim (path_rejection f.path) [
      | none ↦ later
      | some why ↦ some ("refusing \"" <> f.path <> "\": " <> why)
    ]

unfoldable pub total_bytes : List FileChange → ℕ
unfolding change_bytes
total_bytes [] = 0
total_bytes (f ∷ fs) = change_bytes f + total_bytes fs

unfoldable pub clean_path : String → String
unfolding clean path_text
clean_path path = path_text (clean path)

-- `withinRoot` of the root and the root joined with a clean relative path, where `filepath.Rel` gives
-- that path back.
unfoldable pub within_root : String → Bool
unfolding has_prefix
within_root rel = not (rel == ".") && (not (has_prefix rel "../") && not (rel == ".."))

abbrev is_newline : Char → Bool
is_newline c = nat_eq (code c) 10

-- The text that `git apply` is given ends with a newline.
unfoldable pub with_newline : String → String
with_newline text = if last_is is_newline text then text else text <> "\n"

unfoldable pub after_remove : String → ApplyOutcome → Removed → Applied
after_remove rel out removed = (add_applied rel out, none)
after_remove rel out absent =
    (record out { skipped = out.skipped ++ (rel <> " (already absent)") ∷ [] }, none)
after_remove rel out (stuck e) = refused out "apply_failed" ("delete " <> rel <> ": " <> e)

unfoldable pub after_change : String → ApplyOutcome → String → Result Done → Applied
after_change rel out what (ok _) = (add_applied rel out, none)
after_change rel out what (err e) = refused out "apply_failed" (what <> e)

module _ {S : Type 0} (ws : Workspace S) where
  unfoldable pub apply_delete : String → ApplyOutcome → S → Applied × S
  apply_delete rel out s = let (r, s') = ws.remove rel s in (after_remove rel out r, s')

  unfoldable pub apply_write : String → String → ApplyOutcome → S → Applied × S
  apply_write rel text out s =
      let (r, s') = ws.make_dir rel s in
      elim r [
        | err e ↦ (refused out "apply_failed" ("create directory for " <> rel <> ": " <> e), s')
        | ok _ ↦
            let (q, s'') = ws.write_file rel text s' in
            (after_change rel out ("write " <> rel <> ": ") q, s'')
      ]

  unfoldable pub apply_patch : String → String → ApplyOutcome → S → Applied × S
  unfolding with_newline
  apply_patch rel text out s =
      let (r, s') = ws.patch (with_newline text) s in (after_change rel out ("patch " <> rel) r, s')

  -- What one entry does: it is applied, or skipped, or fails.
  unfoldable pub apply_one : FileChange → String → ApplyOutcome → S → Applied × S
  unfolding mode apply_delete apply_write apply_patch
  apply_one f rel out s =
      if mode f == "delete"
      then apply_delete rel out s
      else if mode f == "write"
      then apply_write rel (elim f.contents [ none ↦ "" | some c ↦ c ]) out s
      else if mode f == "patch"
      then apply_patch rel f.patch out s
      else ((out, none), s)

  -- The second loop, up to the first failure.
  unfoldable pub apply_files : List FileChange → ApplyOutcome → S → Applied × S
  unfolding apply_one clean_path within_root
  apply_files [] out s = ((out, none), s)
  apply_files (f ∷ fs) out s =
      let rel = clean_path f.path in
      elim (within_root rel) [
        | false ↦ (
          refused out "unsafe_path"
              ("refusing \"" <> f.path <> "\": resolved outside the workspace"),
          s,
        )
        | true ↦
            let ((out', e), s') = apply_one f rel out s in
            elim e [ some why ↦ ((out', some why), s') | none ↦ apply_files fs out' s' ]
      ]

  -- What is checked before anything is touched: the status and the error of a refusal.
  unfoldable pub preflight : Limits → List FileChange → S → Option (String × String)
  unfolding first_refused total_bytes
  preflight limits files s =
      if is_empty files
      then some ("no_changes_produced", "the change set contains no files")
      else if ltb 0 limits.max_files && ltb limits.max_files (length files)
      then some (
        "change_set_too_large",
        "change set has "
            <> show (length files)
            <> " files, limit is "
            <> show limits.max_files
            <> " (OPM_DELIVERY_MAX_FILES)",
      )
      else elim (ws.resolve s) [
        | err e ↦ some ("workspace_unavailable", "workspace not usable: " <> e)
        | ok _ ↦ elim (first_refused files) [
          | some why ↦ some ("unsafe_path", why)
          | none ↦
              if ltb 0 limits.max_bytes && ltb limits.max_bytes (total_bytes files)
              then some (
                "change_set_too_large",
                "change set is "
                    <> show (total_bytes files)
                    <> " bytes, limit is "
                    <> show limits.max_bytes
                    <> " (OPM_DELIVERY_MAX_BYTES)",
              )
              else none
        ]
      ]

  unfoldable pub apply_change_set : Limits → ChangeSet → S → Applied × S
  unfolding preflight apply_files
  apply_change_set limits cs s = elim (preflight limits cs.files s) [
    | some (status, why) ↦ (refused nothing_yet status why, s)
    | none ↦
        let ((out, e), s') = apply_files cs.files nothing_yet s in
        elim e [
          | some why ↦ ((out, some why), s')
          | none ↦
              if is_empty out.applied
              then (
                refused out "no_changes_produced" "no file in the change set could be applied",
                s',
              )
              else ((out, none), s')
        ]
  ]
