-- ===== src/Board.antt =====
-- The board of store.go as a map from columns to the spec ids on them: what reading it adds, and
-- what moving and deleting a task do to it.
pub mod Laws
use opm_api.Prelude.{
  String, Bool, List, [], ◌∷◌, ◌++◌, ◌==◌, update, remove, contains, if◌then◌else◌,
}
use opm_api.Models.{Board, board_columns, empty_board}

-- What `GetBoard` makes of the file: the ids of the legacy column go to `review`.
unfoldable pub merge_legacy : List String → Board → Board
unfolding update
merge_legacy [] b = b
merge_legacy (x ∷ xs) b = update (update b "review" (b "review" ++ x ∷ xs)) "ai_review" []

unfoldable pub read_board : Board → Board
unfolding merge_legacy
read_board b = merge_legacy (b "ai_review") b

-- What `PutBoard` writes: the columns of the workflow and no other.
unfoldable pub normalize_board : Board → Board
unfolding contains empty_board
normalize_board b c = if contains board_columns c then b c else empty_board c

-- The loop over the columns that takes an id off each of them.
unfoldable pub take_off : String → List String → Board → Board
unfolding update remove
take_off spec_id [] b = b
take_off spec_id (c ∷ cs) b = take_off spec_id cs (update b c (remove spec_id (b c)))

unfoldable pub take_off_board : String → Board → Board
unfolding take_off
take_off_board spec_id = take_off spec_id board_columns

-- The board after `MoveTask`.
unfoldable pub move_on_board : String → String → Board → Board
unfolding take_off_board
move_on_board spec_id to b =
    let b' = take_off_board spec_id b in update b' to (b' to ++ spec_id ∷ [])

-- The board after `CreateTask`.
unfoldable pub add_to_backlog : String → Board → Board
unfolding update
add_to_backlog spec_id b = update b "backlog" (b "backlog" ++ spec_id ∷ [])
