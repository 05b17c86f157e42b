-- ===== src/IssueMap.antt =====
-- github_issue_map.go: board columns and GitHub issue states, in both directions.
pub mod Laws
use opm_api.Prelude.{String, Option, none, some, ◌||◌, ◌==◌, trim_space, to_lower, if◌then◌else◌}

-- `boardColumnIssueState`.
unfoldable pub board_column_issue_state : String → Option String
board_column_issue_state c =
    if c == "backlog"
    then some "open"
    else if c == "queue"
    then some "open"
    else if c == "in_progress"
    then some "open"
    else if c == "review"
    then some "open"
    else if c == "human_review"
    then some "open"
    else if c == "done"
    then some "closed"
    else none

abbrev pub issue_closed_column : String
issue_closed_column = "done"

abbrev pub issue_reopen_column : String
issue_reopen_column = "in_progress"

-- The issue state to push for a column; `none` is `ok == false`.
unfoldable pub issue_state_for_column : String → Option String
unfolding board_column_issue_state
issue_state_for_column column = board_column_issue_state (trim_space column)

-- The column to move a task to on a pull; `none` is `move == false`.
unfoldable pub column_for_issue_state : String → String → Option String
column_for_issue_state issue_state current_column =
    let state = trim_space (to_lower issue_state) in
    let current = trim_space current_column in
    if state == "closed"
    then if current == issue_closed_column then none else some issue_closed_column
    else if state == "open"
    then if current == issue_closed_column then some issue_reopen_column else none
    else none
