-- ===== src/Models/Tasks.antt =====
-- models.go: a task of the board, and autopilot.go: whether it runs without a human gate.
use opm_api.Prelude.{ℕ, String, Bool, true, not, Option, none, some, List}
use opm_api.Models.Projects.{Time}

pub record Task : Type 0 where
  pub id : String
  pub spec_id : String
  pub title : String
  pub description : String
  pub status : String
  pub require_review_before_coding : Bool
  pub human_review_required : Option Bool
  pub ideation_id : String
  pub ideation_type_key : String
  pub github_milestone_number : ℕ
  pub github_milestone_title : String
  pub github_milestone_url : String
  pub github_project_id : String
  pub github_project_item_id : String
  pub github_project_synced_at : Option Time
  pub github_project_sync_error : String
  pub github_issue_number : ℕ
  pub github_issue_url : String
  pub github_issue_state : String
  pub github_issue_title : String
  pub github_issue_assignee : String
  pub github_issue_labels : List String
  pub github_issue_synced_at : Option Time
  pub github_issue_sync_error : String
  pub delivery_branch : String
  pub delivery_commit_sha : String
  pub delivery_files : List String
  pub delivered_at : Option Time
  pub pr_number : ℕ
  pub pr_url : String
  pub pr_state : String
  pub delivery_status : String
  pub delivery_error : String
  pub created_at : Time
  pub updated_at : Time

-- A pointer that is nil counts as true.
unfoldable pub human_review_required : Task → Bool
human_review_required t = elim t.human_review_required [ none ↦ true | some b ↦ b ]

unfoldable pub task_autopilot : Task → Bool
unfolding human_review_required
task_autopilot t = not (human_review_required t)
