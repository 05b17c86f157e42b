-- ===== src/IssueMap/Laws.antt =====
-- What pushing and pulling an issue do to the column of its task.
use opm_api.Prelude.{
  String, none, some, ◌≡◌, ◌⊎◌, refl, false, arith, ◌==◌, eq_iff, contains, trim_space, to_lower,
  ◌≢◌, eq-cases, inl, inr, if◌then◌else◌,
}
use opm_api.Models.{board_columns}
use opm_api.IssueMap.{board_column_issue_state, issue_state_for_column, column_for_issue_state}

trim_done : trim_space "done" ≡ "done"
unfolding trim_space
trim_done = refl

trim_in_progress : trim_space "in_progress" ≡ "in_progress"
unfolding trim_space
trim_in_progress = refl

lowered_open : trim_space (to_lower "open") ≡ "open"
unfolding trim_space to_lower
lowered_open = refl

lowered_closed : trim_space (to_lower "closed") ≡ "closed"
unfolding trim_space to_lower
lowered_closed = refl

done_ne_in_progress : ◌≢◌ {A = String} "done" "in_progress"
done_ne_in_progress = ground (arith, eq_iff "done" "in_progress")

closed_ne_open : ◌≢◌ {A = String} "closed" "open"
closed_ne_open = ground (arith, eq_iff "closed" "open")

module _ (state column : String) where
  -- A pull moves a task only to `done` or `in_progress`, and only across the border of `done`: out
  -- of it when the issue is open, into it when the issue is closed.
  column_for_issue_state_moves :
      {to : String}
      → column_for_issue_state state column ≡ some to
      → ((to ≡ "done")
          × ((trim_space column == "done") ≡ false)
          × (trim_space (to_lower state) ≡ "closed"))
        ⊎ ((to ≡ "in_progress")
            × (trim_space column ≡ "done")
            × (trim_space (to_lower state) ≡ "open"))
  unfolding column_for_issue_state
  column_for_issue_state_moves h = ground (
    arith,
    eq_iff (trim_space column) "done",
    eq_iff (trim_space (to_lower state)) "closed",
    eq_iff (trim_space (to_lower state)) "open",
  )

  -- A second pull of the same issue state moves nothing more.
  column_for_issue_state_settles :
      {to : String}
      → column_for_issue_state state column ≡ some to
      → column_for_issue_state state to ≡ none
  unfolding column_for_issue_state
  column_for_issue_state_settles {to} h = ground (
    arith,
    column_for_issue_state_moves h,
    trim_done,
    trim_in_progress,
    eq_iff (trim_space to) "done",
    eq_iff (trim_space (to_lower state)) "closed",
    eq_iff (trim_space (to_lower state)) "open",
    done_ne_in_progress,
    closed_ne_open,
  )

pushed_state :
    (c : String)
    → board_column_issue_state c
      ≡ (if contains board_columns c then some (if c == "done" then "closed" else "open") else none)
unfolding board_column_issue_state contains
pushed_state c = elim (eq-cases c "backlog") [
  | inl e ↦ rw e
  | inr n0 ↦ elim (eq-cases c "queue") [
    | inl e ↦ rw e
    | inr n1 ↦ elim (eq-cases c "in_progress") [
      | inl e ↦ rw e
      | inr n2 ↦ elim (eq-cases c "review") [
        | inl e ↦ rw e
        | inr n3 ↦ elim (eq-cases c "human_review") [
          | inl e ↦ rw e
          | inr n4 ↦ elim (eq-cases c "done") [ inl e ↦ rw e | inr n5 ↦ ground arith ]
        ]
      ]
    ]
  ]
]

-- The pushed state is `closed` for `done` and `open` for the five other columns; a text that is no
-- column has none.
issue_state_for_column_lem :
    (column : String)
    → issue_state_for_column column ≡ (
        if contains board_columns (trim_space column)
        then some (if trim_space column == "done" then "closed" else "open")
        else none)
unfolding issue_state_for_column
issue_state_for_column_lem column = pushed_state (trim_space column)

-- What a push of a column tells GitHub, a pull of that answer reads as no move, for every text
-- that is taken for a column.
pull-push :
    (column : String) {state : String}
    → issue_state_for_column column ≡ some state
    → column_for_issue_state state column ≡ none
unfolding column_for_issue_state
pull-push column {state} h = ground (
  arith,
  issue_state_for_column_lem column,
  lowered_open,
  lowered_closed,
  eq_iff (trim_space column) "done",
  eq_iff (trim_space (to_lower state)) "closed",
  eq_iff (trim_space (to_lower state)) "open",
  closed_ne_open,
)
