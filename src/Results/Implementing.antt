-- ===== src/Results/Implementing.antt =====
-- `applyModelImplementationOpts` and `recordImplementationChangeSet` of model_apply.go. `ws` is the
-- file system of the session's workspace.
pub mod Laws
use opm_api.Prelude.{
  ℕ, String, Bool, true, false, not, ◌&&◌, Option, none, some, List, [], ◌∷◌, ◌<>◌, ◌==◌, Result,
  ok, err, is_empty, length, join, nz, show, trim_space, truncate_runes, contains_text,
  replace_first, if◌then◌else◌,
}
use opm_api.Models.{Time, Job}
use opm_api.World.{File, Op, Done, pure, ignore, try, ◌>>=◌, ◌>>◌}
use opm_api.World.Layout.{with_project}
use opm_api.Store.Tasks.{write_spec_file, append_spec_log}
use opm_api.Results.{RunnerResult}
use opm_api.Runner.{Outcome}
use opm_api.Runner.Implementing.{builtin_implementation_opts, no_code_notice}
use opm_api.ChangeSet.Types.{ChangeSet}
use opm_api.ChangeSet.Normalize.{paths, change_set_from_runner}
use opm_api.ChangeSet.Apply.{Limits, Workspace, Applied, apply_change_set}
use opm_api.ChangeSet.Recorded.{put_change_set_merged}

module _ (now : Time) (j : Job) where
  unfoldable pub implementation_log : String → Op Done
  implementation_log text = ignore (
      append_spec_log now j.project_id j.spec_id "implementation"
        ("[" <> j.run_id <> "] " <> text <> "\n"))

  abbrev pub files_of : ChangeSet → String
  files_of cs = show (length cs.files) <> " file change(s)"

  abbrev pub nothing_sentence : String
  nothing_sentence = "No source changes were produced this step."

  abbrev pub not_applied_sentence : ChangeSet → String → String
  not_applied_sentence cs why =
      "Produced " <> files_of cs <> " but applying to the session workspace failed: " <> why <> "."

  abbrev pub not_recorded_sentence : ChangeSet → String → String
  not_recorded_sentence cs why =
      "Produced " <> files_of cs <> " but recording them failed: " <> why <> "."

  abbrev pub applied_sentence : ChangeSet → String
  applied_sentence cs = "Applied " <> files_of cs <> " to the shared implementation workspace."

  unfoldable pub note_nothing : ChangeSet → Op String
  note_nothing cs = do
    implementation_log (
        "no source changes produced — nothing to deliver ("
        <> nz cs.note "runner returned no files"
        <> ")")
    pure nothing_sentence

  -- The merge into the change set that is recorded.
  unfoldable pub record_changes : ChangeSet → Op String
  record_changes cs = do
    r ← try (put_change_set_merged now j.project_id j.spec_id cs)
    elim r [
      | err e ↦ do
        implementation_log ("failed to record " <> files_of cs <> ": " <> e)
        pure (not_recorded_sentence cs e)
      | ok _ ↦ do
        implementation_log
            ("merged " <> files_of cs <> " into session change set: " <> join ", " (paths cs.files))
        pure (applied_sentence cs)
    ]

module _ {S : Type 0} (now : Time) (ws : Workspace S) (limits : Limits) (session : Bool)
    (j : Job) where
  -- What follows the application in the workspace.
  unfoldable pub after_applying : ChangeSet → Applied → Op String
  after_applying cs (applied, some why) = do
    implementation_log now j
        ("failed to apply " <> files_of now j cs <> " to session workspace: " <> why)
    pure (not_applied_sentence now j cs why)
  after_applying cs (applied, none) = do
    implementation_log now j (
        "applied "
        <> show (length applied.applied)
        <> " file change(s) to session workspace: "
        <> join ", " applied.applied)
    record_changes now j cs

  abbrev beside : S → String → Op (String × S)
  beside host text = pure (text, host)

  -- `session` tells whether there is a session's workspace that is no stub.
  unfoldable pub record_implementation_change_set : RunnerResult → S → Op (String × S)
  unfolding after_applying apply_change_set
  record_implementation_change_set rr host =
      let cs = change_set_from_runner now j.run_id rr.files rr.model rr.commit_message in
      let (applied, host') = apply_change_set ws limits cs host in
      if j.spec_id == ""
      then beside host ""
      else if is_empty cs.files
      then note_nothing now j cs >>= beside host
      else if session
      then after_applying cs applied >>= beside host'
      else record_changes now j cs >>= beside host

module _ {S : Type 0} (rfc3339 : Time → String) (now : Time) (ws : Workspace S) (limits : Limits)
    (session : Bool) (j : Job) (keep_running : Bool) where
  abbrev pub implementation_note : RunnerResult → String
  implementation_note rr =
      let note = trim_space rr.implementation_notes in if note == "" then rr.raw_excerpt else note

  abbrev pub runner_notes : String → String → String
  runner_notes model note =
      "\n### Runner notes (" <> rfc3339 now <> ", " <> nz model "model" <> ")\n\n" <> note <> "\n"

  unfoldable pub store_note : String → String → Op Done
  store_note model note = do
    ignore (
        with_project now j.project_id λ p. write_spec_file File.notes p j.spec_id λ d. record d {
          notes = some (elim d.notes [ none ↦ "" | some n ↦ n ] <> runner_notes model note);
        })
    implementation_log now j
        ("runner implementation notes (" <> nz model "?" <> "): " <> truncate_runes note 400)

  -- The message of the builtin step, told as the model's.
  unfoldable pub model_message : String → String → String
  unfolding replace_first contains_text trim_space
  model_message model builtin =
      let named = replace_first builtin "(builtin)" ("(model/" <> nz model "model" <> ")") in
      let told =
        if contains_text named "model/" then named else "Model enrichment applied. " <> named in
      trim_space (replace_first (replace_first told "Re-enqueue to continue." "") no_code_notice "")

  unfoldable pub apply_model_implementation_opts : RunnerResult → S → Op (Outcome × S)
  unfolding store_note model_message
  apply_model_implementation_opts rr host = do
    out ← builtin_implementation_opts rfc3339 now j keep_running
    elim out.error [
      | some _ ↦ pure (out, host)
      | none ↦ do
        let note = implementation_note rr
        if note == "" then pure tt else store_note rr.model note
        (said, host') ← record_implementation_change_set now ws limits session j rr host
        pure (
          record { message = model_message rr.model out.message <> " " <> said; error = none },
          host',
        )
    ]
