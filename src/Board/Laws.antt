-- ===== src/Board/Laws.antt =====
-- Where a spec id stands on the board after an operation.
use opm_api.Prelude.{
  ◌+◌, String, true, false, ◌&&◌, List, [], ◌∷◌, ◌++◌, ◌≡◌, refl, arith, ◌==◌, eq_iff, eq_refl,
  update, remove, contains, count, count-append, count-remove_self, count-remove_ne, count_single,
  if◌then◌else◌, eq-false_of_ne, ap,
}
use mathlib.Core.List.{append-nil}
use opm_api.Models.{Board, board_columns}
use opm_api.Board.{read_board, merge_legacy, take_off, take_off_board, move_on_board}

-- A column that the loop goes over loses the id, and no other id.
take_off_lem :
    (spec_id : String) (cs : List String) (b : Board) (c a : String)
    → count a (take_off spec_id cs b c)
      ≡ (if contains cs c && a == spec_id then 0 else count a (b c))
unfolding take_off contains update
take_off_lem spec_id [] b c a = refl
take_off_lem spec_id (d ∷ cs) b c a = ground (
  arith,
  take_off_lem spec_id cs (update b d (remove spec_id (b d))) c a,
  eq_iff c d,
  eq_iff d c,
  eq_iff a spec_id,
  count-remove_self spec_id (b d),
  count-remove_ne spec_id a (b d),
)

-- The ids of a column but one, in order.
abbrev pub others : String → List String → List String
others a [] = []
others a (x ∷ xs) = if x == a then others a xs else x ∷ others a xs

remove-eq-others : (a : String) (xs : List String) → remove a xs ≡ others a xs
unfolding remove
remove-eq-others a [] = refl
remove-eq-others a (x ∷ xs) = ground (arith, remove-eq-others a xs)

others-others : (a : String) (xs : List String) → others a (others a xs) ≡ others a xs
others-others a [] = refl
others-others a (x ∷ xs) = ground (arith, others-others a xs)

take_off-others :
    (spec_id : String) (cs : List String) (b : Board) (c : String)
    → take_off spec_id cs b c ≡ (if contains cs c then others spec_id (b c) else b c)
unfolding take_off contains update
take_off-others spec_id [] b c = refl
take_off-others spec_id (d ∷ cs) b c = ground (
  arith,
  take_off-others spec_id cs (update b d (remove spec_id (b d))) c,
  remove-eq-others spec_id (b d),
  others-others spec_id (b d),
  eq_iff c d,
  eq_iff d c,
)

-- A column of the workflow after a move: the other ids in order, and at the end of the new column the
-- id.
pub move_on_board-column :
    (spec_id to : String) (b : Board) (c : String)
    → contains board_columns to ≡ true
    → contains board_columns c ≡ true
    → move_on_board spec_id to b c ≡ others spec_id (b c) ++ (if c == to then spec_id ∷ [] else [])
unfolding move_on_board update take_off_board
move_on_board-column spec_id to b c h k = ground (
  arith,
  take_off-others spec_id board_columns b c,
  take_off-others spec_id board_columns b to,
  append-nil (others spec_id (b c)),
  eq_iff to c,
  eq_iff c to,
)

-- A column outside the workflow after a move.
pub move_on_board-outside :
    (spec_id to : String) (b : Board) (c : String)
    → contains board_columns to ≡ true
    → contains board_columns c ≡ false
    → move_on_board spec_id to b c ≡ b c
unfolding move_on_board update take_off_board
move_on_board-outside spec_id to b c h k =
    ground (arith, take_off-others spec_id board_columns b c, eq_iff to c)

-- After a move to a column of the workflow the id stands once in that column and in no other column
-- of the workflow, and every other id stands where it stood, as often.
pub count-move_on_board :
    (spec_id to : String) (b : Board) (c a : String)
    → contains board_columns to ≡ true
    → contains board_columns c ≡ true
    → count a (move_on_board spec_id to b c)
      ≡ (if a == spec_id then (if c == to then 1 else 0) else count a (b c))
unfolding move_on_board update take_off_board
count-move_on_board spec_id to b c a h k = ground (
  arith,
  take_off_lem spec_id board_columns b c a,
  take_off_lem spec_id board_columns b to a,
  count-append a (take_off_board spec_id b to) (spec_id ∷ []),
  count_single a spec_id,
  eq_iff to c,
  eq_iff c to,
  eq_iff a spec_id,
  eq_iff spec_id a,
)

-- Deleting a task takes its id off every column of the workflow and leaves every other id.
pub count-take_off_board :
    (spec_id : String) (b : Board) (c a : String)
    → contains board_columns c ≡ true
    → count a (take_off_board spec_id b c) ≡ (if a == spec_id then 0 else count a (b c))
unfolding take_off_board
count-take_off_board spec_id b c a k = ground (arith, take_off_lem spec_id board_columns b c a)

-- A column outside the workflow is left alone by a move.
legacy_untouched :
    (spec_id to : String) (b : Board)
    → contains board_columns to ≡ true
    → move_on_board spec_id to b "ai_review" ≡ b "ai_review"
unfolding move_on_board update
legacy_untouched spec_id to b h =
    let ne : (to == "ai_review") ≡ false =
      eq-false_of_ne to "ai_review" (λ e. cc (no_ai_review, ap (contains board_columns) e)) in
    rw (ne, move_on_board) refl
  where
    no_ai_review : contains board_columns "ai_review" ≡ false
    no_ai_review = unfold contains in refl

merge_legacy-review :
    (xs : List String) (b : Board) (a : String)
    → count a (merge_legacy xs b "review") ≡ count a (b "review") + count a xs
unfolding merge_legacy
merge_legacy-review [] b a = unfold count in omega arith
merge_legacy-review (x ∷ xs) b a = count-append a (b "review") (x ∷ xs)

read_board-review :
    (b : Board) (a : String)
    → count a (read_board b "review") ≡ count a (b "review") + count a (b "ai_review")
unfolding read_board
read_board-review b a = merge_legacy-review (b "ai_review") b a

-- A task that stands in the legacy column stays on the board as it is read, in `review`, after a
-- move to any other column of the workflow.
pub move_on_board_legacy :
    (spec_id to : String) (b : Board)
    → contains board_columns to ≡ true
    → (to == "review") ≡ false
    → count spec_id (read_board (move_on_board spec_id to b) "review")
      ≡ count spec_id (b "ai_review")
move_on_board_legacy spec_id to b h n = ground (
  arith,
  read_board-review (move_on_board spec_id to b) spec_id,
  legacy_untouched spec_id to b h,
  count-move_on_board spec_id to b "review" spec_id h (unfold contains in refl),
  eq_iff "review" to,
  eq_iff to "review",
  eq_refl spec_id,
)
