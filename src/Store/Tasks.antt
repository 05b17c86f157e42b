-- ===== src/Store/Tasks.antt =====
-- store.go: tasks, their board, their plans, progress and logs.
use opm_api.Prelude.{
  String, true, Option, none, some, ◌<>◌, ◌==◌, not, update, lookup, insert, delete, contains,
  trim_space, if◌then◌else◌,
}
use opm_api.Models.{
  Time, Project, Board, board_columns, Task, ImplementationPlan, TaskProgress, no_progress,
}
use opm_api.Board.{read_board, normalize_board, take_off_board, move_on_board}
use opm_api.World.{
  File, ProjectDir, SpecDir, Op, Done, pure, fail, ignore, attempt, write, ◌>>=◌, ◌>>◌,
}
use opm_api.World.Layout.{with_project}

abbrev pub no_such_file : String
no_such_file = "no such file or directory"

-- The directory of a spec before its first file.
abbrev pub empty_spec : SpecDir
empty_spec = record {
  task = none;
  plan = none;
  progress = none;
  spec_md = none;
  approved = none;
  changes = none;
  notes = none;
  logs = λ phase. "";
}

abbrev pub spec_or_empty : Option SpecDir → SpecDir
spec_or_empty none = empty_spec
spec_or_empty (some d) = d

-- `readJSON` of one file.
unfoldable pub read : {A : Type 0} → (ProjectDir → Option A) → Project → Op A
read what p w = elim (what (w.projects p.id)) [ none ↦ fail no_such_file w | some a ↦ pure a w ]

unfoldable pub read_spec : {A : Type 0} → (SpecDir → Option A) → Project → String → Op A
unfolding read
read_spec what p spec_id = read (λ d. what (spec_or_empty (lookup spec_id d.specs))) p

-- `writeJSON` of one file of a spec, which makes the spec's directory if it is not there.
unfoldable pub write_spec : File → Project → String → (SpecDir → SpecDir) → Op Done
unfolding write
write_spec f p spec_id change = write f p.id (λ d. record d {
  specs = insert spec_id (change (spec_or_empty (lookup spec_id d.specs))) d.specs;
})

-- `os.WriteFile` of one file of a spec, which fails if the spec's directory is not there.
unfoldable pub write_spec_file : File → Project → String → (SpecDir → SpecDir) → Op Done
unfolding write_spec
write_spec_file f p spec_id change w = elim (lookup spec_id (w.projects p.id).specs) [
  | none ↦ fail no_such_file w
  | some d ↦ write_spec f p spec_id change w
]

-- The body of `DeleteTask` under the lock.
unfoldable pub delete_in : String → Project → Op Done
delete_in spec_id p = do
  found ← attempt (read (λ d. d.board) p)
  (elim found [
    | none ↦ pure tt
    | some b ↦
        ignore (write File.board p.id (λ d. record d { board = some (take_off_board spec_id b) }))
  ])
  write File.dirs p.id (λ d. record d { specs = delete spec_id d.specs })

module _ (now : Time) where
  unfoldable pub get_task : String → String → Op Task
  get_task project_id spec_id = with_project now project_id (λ p. read_spec (λ d. d.task) p spec_id)

  unfoldable pub get_plan : String → String → Op ImplementationPlan
  get_plan project_id spec_id = with_project now project_id (λ p. read_spec (λ d. d.plan) p spec_id)

  unfoldable pub put_plan : String → String → ImplementationPlan → Op Done
  put_plan project_id spec_id plan =
      with_project now project_id
        (λ p. write_spec File.plan p spec_id (λ d. record d { plan = some plan }))

  -- A progress file that is not there reads as `TaskProgress{}`.
  unfoldable pub get_progress : String → String → Op TaskProgress
  get_progress project_id spec_id = with_project now project_id (λ p.
      read_spec (λ d. elim d.progress [ none ↦ some no_progress | some g ↦ some g ]) p spec_id)

  unfoldable pub put_progress : String → String → TaskProgress → Op Done
  put_progress project_id spec_id prog =
      with_project now project_id
        (λ p. write_spec File.progress p spec_id (λ d. record d { progress = some prog }))

  unfoldable pub put_spec_markdown : String → String → String → Op Done
  put_spec_markdown project_id spec_id content =
      with_project now project_id
        (λ p. write_spec_file File.spec_md p spec_id (λ d. record d { spec_md = some content }))

  unfoldable pub append_spec_log : String → String → String → String → Op Done
  append_spec_log project_id spec_id phase line = with_project now project_id (λ p.
      write_spec File.log p spec_id
        (λ d. record d { logs = update d.logs phase (d.logs phase <> line) }))

  unfoldable pub get_board : String → Op Board
  get_board project_id =
      with_project now project_id (λ p. read (λ d. d.board) p) >>= λ b. pure (read_board b)

  unfoldable pub put_board : String → Board → Op Done
  put_board project_id b =
      with_project now project_id
        (λ p. write File.board p.id (λ d. record d { board = some (normalize_board b) }))

  -- The body of `MoveTask` under the lock.
  unfoldable pub move_in : String → String → Project → Op Task
  unfolding read_spec read write_spec write ◌>>=◌
  move_in spec_id to p = do
    t ← read_spec (λ d. d.task) p spec_id
    b ← read (λ d. d.board) p
    let t' = record t { status = to; updated_at = now }
    write_spec File.task p spec_id (λ d. record d { task = some t' })
    write File.board p.id (λ d. record d { board = some (move_on_board spec_id to b) })
    pure t'

  unfoldable pub move_task : String → String → String → Op Task
  move_task project_id spec_id to_status =
      let to = trim_space to_status in
      if contains board_columns to
      then with_project now project_id (move_in spec_id to)
      else fail ("invalid status \"" <> to <> "\"")

  -- The body of `MutateTask` under the lock: the change, and the time of the update.
  unfoldable pub mutate_in : String → (Task → Task) → Project → Op Task
  mutate_in spec_id mut p = do
    t ← read_spec (λ d. d.task) p spec_id
    let t' = record (mut t) { updated_at = now }
    write_spec File.task p spec_id (λ d. record d { task = some t' })
    pure t'

  unfoldable pub mutate_task : String → String → (Task → Task) → Op Task
  mutate_task project_id spec_id mut = with_project now project_id (mutate_in spec_id mut)

  unfoldable pub delete_task : String → String → Op Done
  delete_task project_id spec_id = with_project now project_id (delete_in spec_id)

  -- `ApproveForCoding`: the gate, the move, and the mark that the review was given.
  unfoldable pub approve_for_coding : String → String → Op Task
  approve_for_coding project_id spec_id = do
    t ← get_task project_id spec_id
    if not (t.status == "human_review")
        then fail ("task must be in human_review (got \"" <> t.status <> "\")")
        else do
          moved ← move_task project_id spec_id "queue"
          ignore (
              with_project now project_id (λ p.
                write_spec File.review_state p spec_id (λ d. record d { approved = some true })))
          pure moved
