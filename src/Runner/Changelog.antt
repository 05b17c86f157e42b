-- ===== src/Runner/Changelog.antt =====
-- `builtinChangelog` of job_runner.go.
use opm_api.Prelude.{
  String, Option, none, some, List, [], ◌∷◌, ◌<>◌, ◌==◌, ok, err, is_empty, length, show,
  truncate_runes, if◌then◌else◌,
}
use opm_api.Models.{Time, Task, Job}
use opm_api.World.{Op, pure, attempt, try, ◌>>=◌}
use opm_api.Store.Tasks.{get_board, get_task}
use opm_api.Store.Documents.{put_changelog}
use opm_api.Runner.{Outcome, done_with, failed_with, or_fail}

-- The line of a task in `done`; an id without a task is its own title.
unfoldable pub changelog_line : String → Option Task → String
unfolding truncate_runes
changelog_line id none = "- **" <> id <> "** (`" <> id <> "`)\n"
changelog_line id (some t) =
    "- **"
    <> t.title
    <> "** (`"
    <> id
    <> "`)"
    <> (if t.description == "" then "" else " — " <> truncate_runes t.description 120)
    <> "\n"

module _ (rfc3339 : Time → String) (now : Time) (j : Job) where
  unfoldable pub changelog_lines : List String → Op String
  unfolding changelog_line
  changelog_lines [] = pure ""
  changelog_lines (id ∷ ids) = do
    t ← attempt (get_task now j.project_id id)
    rest ← changelog_lines ids
    pure (changelog_line id t <> rest)

  abbrev pub changelog_text : String → String
  changelog_text lines =
      "# Changelog\n\nGenerated "
      <> rfc3339 now
      <> " by OPM builtin runner (`"
      <> j.run_id
      <> "`).\n\n### Added\n\n"
      <> lines
      <> "\n### Changed\n\n- _(none)_\n\n### Fixed\n\n- _(none)_\n"

  unfoldable pub builtin_changelog : Op Outcome
  unfolding changelog_lines
  builtin_changelog = do
    board ← try (get_board now j.project_id)
    elim board [
      | err e ↦ failed_with "Board missing" e
      | ok b ↦ do
        lines ← changelog_lines (b "done")
        let shown = if is_empty (b "done") then "- _(no done tasks yet)_\n" else lines
        r ← try (put_changelog now j.project_id (changelog_text shown))
        or_fail "Failed to write changelog.md" r (
            done_with (
              "Changelog generated (builtin) from "
              <> show (length (b "done"))
              <> " done task(s)."))
    ]
