-- ===== src/Store/Agreement.antt =====
-- The board and the stored tasks tell the same story: the operations on tasks keep it so.
pub mod Deleting
pub mod Mutating
use opm_api.Prelude.{
  ℕ, ◌<◌, ◌+◌, String, Bool, true, false, Option, none, some, List, [], ◌∷◌, ◌==◌, ◌≡◌, refl, ap,
  sym, ◌∙◌, arith, count, count-append, count_single, contains, trim_space, ok, lookup, eq_iff,
  eq_refl, int_max, update, if◌then◌else◌, Bool-cases, inl, inr,
}
use opm_api.Models.{Time, Board, board_columns, Task}
use opm_api.Board.{move_on_board, add_to_backlog}
use opm_api.Board.Laws.{count-move_on_board}
use opm_api.World.{World}
use opm_api.World.Layout.{dir}
use opm_api.World.Layout.Laws.{board_or_empty}
use opm_api.Store.SpecIds.{max_number}
use opm_api.Store.View.{stored_task, board_of}
use opm_api.Store.Tasks.{spec_or_empty, move_task}
use opm_api.Store.Moving.{Writes, move_task-Writes}
use opm_api.Store.Creating.{NewTask, new_task, entry_names, create_task}
use opm_api.Store.Creating.Laws.{Writes as WritesTask, create_task-Writes, lookup-none_of_contains}

-- How often a task should stand in a column.
abbrev pub place : Option Task → String → ℕ
place none c = 0
place (some t) c = if c == t.status then 1 else 0

-- Every stored task stands once in the column of its status and in no other column of the workflow,
-- and nothing else stands there.
abbrev pub Agrees : String → World → Type 0
Agrees id w =
    (j c : String)
    → contains board_columns c ≡ true
    → count j (board_of id w c) ≡ place (stored_task id j w) c

Writes-Agrees :
    {now : Time} {id spec_id to : String} {t : Task} {w w' : World}
    → contains board_columns to ≡ true
    → Writes now id spec_id to t w w'
    → Agrees id w
    → Agrees id w'
Writes-Agrees {now} {id} {spec_id} {to} {t} {w} {w'} h m a j c k =
    elim (Bool-cases (spec_id == j)) [
      | inl e ↦ ground (
        arith,
        eq_iff spec_id j,
        eq_iff j spec_id,
        count-move_on_board spec_id to (board_of id w) c j h k,
        m.board,
        m.stored,
        ap (λ (x : Task). x.status) m.made.2,
      )
      | inr n ↦ ground (
        arith,
        eq_iff spec_id j,
        eq_iff j spec_id,
        count-move_on_board spec_id to (board_of id w) c j h k,
        m.board,
        m.other_tasks j n,
        a j c k,
      )
    ]

count-add_to_backlog :
    (spec_id : String) (b : Board) (c a : String)
    → count a (add_to_backlog spec_id b c)
      ≡ count a (b c) + (if a == spec_id then (if c == "backlog" then 1 else 0) else 0)
unfolding add_to_backlog update
count-add_to_backlog spec_id b c a = ground (
  arith,
  eq_iff "backlog" c,
  eq_iff c "backlog",
  eq_iff a spec_id,
  eq_iff spec_id a,
  count-append a (b "backlog") (spec_id ∷ []),
  count_single a spec_id,
)

WritesTask-Agrees :
    {id : String} {t : Task} {w w' : World}
    → t.status ≡ "backlog"
    → stored_task id t.spec_id w ≡ none
    → WritesTask id t w w'
    → Agrees id w
    → Agrees id w'
WritesTask-Agrees {id} {t} {w} {w'} s f m a j c k = elim (Bool-cases (t.spec_id == j)) [
  | inl e ↦ ground (
    arith,
    eq_iff t.spec_id j,
    eq_iff j t.spec_id,
    count-add_to_backlog t.spec_id (board_of id w) c j,
    m.board,
    m.stored,
    a j c k,
  )
  | inr n ↦ ground (
    arith,
    eq_iff t.spec_id j,
    eq_iff j t.spec_id,
    count-add_to_backlog t.spec_id (board_of id w) c j,
    m.board,
    m.other_tasks j n,
    a j c k,
  )
]

-- A `MoveTask` that succeeds keeps the board and the stored tasks in agreement on the columns of the
-- workflow: every stored task once in the column of its status and in no other of these columns, and
-- nothing else on them. Columns outside the workflow, such as the legacy one, are not spoken of.
pub move_task-Agrees :
    (now : Time) (id spec_id to : String) (w : World) {t : Task}
    → (move_task now id spec_id to w).0 ≡ ok t
    → Agrees id w
    → Agrees id (move_task now id spec_id to w).1
move_task-Agrees now id spec_id to w h a =
    let (k, m) = move_task-Writes now id spec_id to w h in Writes-Agrees k m a

-- A `CreateTask` that succeeds keeps the board and the stored tasks in agreement, as long as the
-- largest number of a spec is below the largest int.
pub create_task-Agrees :
    (now : Time) (uuid : String) (n : NewTask) (id : String) (w : World) {t : Task}
    → max_number 0 (entry_names (dir id w).specs) < int_max
    → (create_task now uuid id n w).0 ≡ ok t
    → Agrees id w
    → Agrees id (create_task now uuid id n w).1
unfolding new_task
create_task-Agrees now uuid n id w {t} l h a =
    let (b, m) = create_task-Writes now uuid n id w l h in
    let f = lookup-none_of_contains t.spec_id (dir id w).specs b.fresh in
    WritesTask-Agrees (ap (λ (t : Task). t.status) b.built) (ap (λ d. (spec_or_empty d).task) f) m a
