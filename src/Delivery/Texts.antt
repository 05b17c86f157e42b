-- ===== src/Delivery/Texts.antt =====
-- delivery.go: the texts of a delivery's commit and pull request.
use opm_api.Prelude.{
  String, Bool, List, [], ◌∷◌, ◌<>◌, ◌==◌, ltb, show, trim_space, truncate_runes, if◌then◌else◌,
}
use opm_api.Models.{Task}
use opm_api.ChangeSet.Types.{ChangeSet}

unfoldable pub deliver_commit_message : Task → ChangeSet → String
unfolding trim_space truncate_runes
deliver_commit_message t cs =
    let msg = trim_space cs.commit_message in
    let title = trim_space t.title in
    let body = trim_space t.description in
    let out =
      truncate_runes (if title == "" then t.spec_id else title) 68 <> "\n\nTask: " <> t.spec_id in
    if msg == ""
    then (if body == "" then out else out <> "\n\n" <> truncate_runes body 600)
    else msg

unfoldable pub file_lines : List String → String
file_lines [] = ""
file_lines (f ∷ files) = "- `" <> f <> "`\n" <> file_lines files

abbrev pub said : Bool → String → String
said b text = if b then text else ""

unfoldable pub deliver_pull_request_body : Task → ChangeSet → List String → String
unfolding trim_space truncate_runes file_lines
deliver_pull_request_body t cs files =
    "Delivers OPM task `"
    <> t.spec_id
    <> "`"
    <> (if trim_space t.title == "" then "" else " — " <> t.title)
    <> ".\n\n"
    <> (if trim_space t.description == ""
        then ""
        else truncate_runes (trim_space t.description) 1000 <> "\n\n")
    <> "### Changed files\n\n"
    <> file_lines files
    <> "\n### Provenance\n\n"
    <> "- Produced by the OPM task runner"
    <> (if cs.source == "model"
        then (if cs.model == "" then "" else " (model `" <> cs.model <> "`)")
        else "")
    <> "\n"
    <> (if cs.run_id == "" then "" else "- Run id: `" <> cs.run_id <> "`\n")
    <> said (ltb 0 t.github_issue_number)
        ("- Linked issue: #" <> show t.github_issue_number <> "\n")
    <> said (ltb 0 t.github_milestone_number) (
        "- Milestone: #"
        <> show t.github_milestone_number
        <> " "
        <> t.github_milestone_title
        <> "\n")
    <> "\nReview this diff as you would any other pull request before merging.\n"

unfoldable pub request_title : Task → String
unfolding trim_space truncate_runes
request_title t =
    let title = trim_space t.title in
    truncate_runes (if title == "" then "Deliver " <> t.spec_id else title) 120
