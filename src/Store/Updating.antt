-- ===== src/Store/Updating.antt =====
-- `UpdateTask` of store.go, with `applyIssuePatch` of github_issue_sync.go.
pub mod Laws
use opm_api.Prelude.{
  ℕ, String, Bool, Option, none, some, List, [], ◌∷◌, ◌==◌, nat_eq, lookup, trim_space,
  if◌then◌else◌,
}
use opm_api.Models.{Time, Project, Task}
use opm_api.World.{SpecDir, Op, pure, value_or}
use opm_api.World.Layout.{with_project}
use opm_api.Store.Tasks.{mutate_task}

-- A value of a JSON patch: a number is cut to an int, and 0 stands for all that are below it.
pub data PatchValue : Type 0 where
  text : String → PatchValue
  flag : Bool → PatchValue
  number : ℕ → PatchValue
  other : PatchValue

abbrev pub Patch : Type 0
Patch = List (String × PatchValue)

unfoldable pub as_text : Option PatchValue → Option String
as_text (some (text v)) = some v
as_text _ = none

unfoldable pub as_flag : Option PatchValue → Option Bool
as_flag (some (flag v)) = some v
as_flag _ = none

unfoldable pub as_number : Option PatchValue → Option ℕ
as_number (some (number v)) = some v
as_number _ = none

-- `if v, ok := patch[key].(T); ok { ... }` on a task.
unfoldable pub where_given : {A : Type 0} → Option A → (A → Task → Task) → Task → Task
where_given none set t = t
where_given (some v) set t = set v t

unfoldable pub clear_issue_link : Task → Task
clear_issue_link t = record t {
  github_issue_number = 0;
  github_issue_url = "";
  github_issue_state = "";
  github_issue_title = "";
  github_issue_assignee = "";
  github_issue_labels = [];
  github_issue_synced_at = none;
  github_issue_sync_error = "";
}

unfoldable pub set_issue_number : ℕ → Task → Task
set_issue_number v t =
    if nat_eq v 0 then clear_issue_link t else record t { github_issue_number = v }

unfoldable pub set_milestone_number : ℕ → Task → Task
set_milestone_number v t =
    if nat_eq v 0
    then record t {
      github_milestone_number = 0;
      github_milestone_title = "";
      github_milestone_url = "";
    }
    else record t { github_milestone_number = v }

unfoldable pub set_title : String → Task → Task
set_title v t = if trim_space v == "" then t else record t { title = v }

abbrev pub set_description : String → Task → Task
set_description v t = record t { description = v }

abbrev pub set_require_review : Bool → Task → Task
set_require_review v t = record t { require_review_before_coding = v }

abbrev pub set_human_review : Bool → Task → Task
set_human_review v t = record t { human_review_required = some v }

abbrev pub set_milestone_title : String → Task → Task
set_milestone_title v t = record t { github_milestone_title = v }

abbrev pub set_milestone_url : String → Task → Task
set_milestone_url v t = record t { github_milestone_url = v }

abbrev pub set_project_id : String → Task → Task
set_project_id v t = record t { github_project_id = trim_space v }

abbrev pub set_project_item_id : String → Task → Task
set_project_item_id v t = record t { github_project_item_id = trim_space v }

abbrev pub set_issue_url : String → Task → Task
set_issue_url v t = record t { github_issue_url = v }

abbrev pub set_issue_state : String → Task → Task
set_issue_state v t = record t { github_issue_state = v }

abbrev pub set_issue_title : String → Task → Task
set_issue_title v t = record t { github_issue_title = v }

module _ (patch : Patch) where
  abbrev text_at : String → (String → Task → Task) → Task → Task
  text_at key = where_given (as_text (lookup key patch))

  abbrev flag_at : String → (Bool → Task → Task) → Task → Task
  flag_at key = where_given (as_flag (lookup key patch))

  abbrev number_at : String → (ℕ → Task → Task) → Task → Task
  number_at key = where_given (as_number (lookup key patch))

  unfoldable pub apply_issue_patch : Task → Task
  apply_issue_patch t =
      let t₁ = number_at "githubIssueNumber" set_issue_number t in
      let t₂ = text_at "githubIssueUrl" set_issue_url t₁ in
      let t₃ = text_at "githubIssueState" set_issue_state t₂ in
      text_at "githubIssueTitle" set_issue_title t₃

  unfoldable pub patch_task : Task → Task
  patch_task t =
      let t₁ = text_at "title" set_title t in
      let t₂ = text_at "description" set_description t₁ in
      let t₃ = flag_at "requireReviewBeforeCoding" set_require_review t₂ in
      let t₄ = flag_at "humanReviewRequired" set_human_review t₃ in
      let t₅ = number_at "githubMilestoneNumber" set_milestone_number t₄ in
      let t₆ = text_at "githubMilestoneTitle" set_milestone_title t₅ in
      let t₇ = text_at "githubMilestoneUrl" set_milestone_url t₆ in
      let t₈ = text_at "githubProjectId" set_project_id t₇ in
      let t₉ = text_at "githubProjectItemId" set_project_item_id t₈ in apply_issue_patch t₉

-- `UpdateTask` reads, stamps and stores as `MutateTask` does.
unfoldable pub update_task : Time → String → String → Patch → Op Task
update_task now project_id spec_id patch = mutate_task now project_id spec_id (patch_task patch)
