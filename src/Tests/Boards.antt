-- ===== src/Tests/Boards.antt =====
-- The board of the demo project.
use opm_api.Prelude.{[], ◌∷◌, ◌==◌, ◌≡◌, refl, count, contains, if◌then◌else◌}
use opm_api.Models.{Board}
use opm_api.Board.{read_board, move_on_board}
use opm_api.Board.Laws.{move_on_board_legacy}

-- A board with a card in the legacy column.
abbrev old_board : Board
old_board c = if c == "ai_review" then "001-a" ∷ [] else []

move_on_board_legacy_example :
    count "001-a" (read_board (move_on_board "001-a" "done" old_board) "review")
    ≡ count "001-a" (old_board "ai_review")
unfolding contains
move_on_board_legacy_example = move_on_board_legacy "001-a" "done" old_board refl refl
