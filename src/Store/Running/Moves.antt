-- ===== src/Store/Running/Moves.antt =====
-- Reading and moving the task of a spec in a ready project.
use opm_api.Prelude.{
  String, true, false, Option, none, some, ok, ◌≡◌, refl, ap, arith, ◌∙◌, contains, trim_space,
  lookup, Option-cases, inl, inr,
}
use opm_api.Models.{Time, Project, Board, board_columns, ProjectStatus, Task}
use opm_api.Board.{move_on_board}
use opm_api.World.{File, SpecDir, World, fail, write}
use opm_api.World.Layout.{dir, is_missing}
use opm_api.World.Layout.Laws.{board_or_empty}
use opm_api.Store.Tasks.{
  no_such_file, spec_or_empty, read, read_spec, write_spec, write_spec_file, get_task, move_in,
  move_task,
}
use opm_api.Store.Running.{
  View, At, Leads, Leads-pure, Leads-bind, Leads-with_project, Leads-write, Leads-write_spec,
}

-- The view after a move of a task.
abbrev pub moved : Time → String → String → Task → View → View
moved now s to t v = record v {
  spec = record (v.spec) { task = some (record t { status = to; updated_at = now }) };
  board = move_on_board s to v.board;
}

has_board-some : {m : Option Board} → is_missing m ≡ false → m ≡ some (board_or_empty m)
has_board-some {m} h = elim (Option-cases m) [ inl e ↦ ground arith | inr (b, e) ↦ rw e ]

module _ (p : Project) (s : String) (now : Time) {v : View} {w : World} (h : At p s v w) where
  pub read_task-Leads :
      {t : Task} → v.spec.task ≡ some t → Leads p s (read_spec (λ d. d.task) p s) w t v
  unfolding read_spec read
  read_task-Leads e = record { after = w; runs_to = rw (h.same_spec, read) (rw e); at = h }

  read_board-Leads : Leads p s (read (λ d. d.board) p) w v.board v
  unfolding read
  read_board-Leads = record {
    after = w;
    runs_to = rw (has_board-some h.ready.filled.has_board, read) (ap (λ b. (ok b, w)) h.same_board);
    at = h;
  }

  put_board-Leads :
      (b : Board)
      → Leads p s
          (write File.board p.id (λ d. record d { board = some b }))
          w
          tt
          (record v { board = b })
  put_board-Leads b =
      Leads-write p s File.board (λ d. record d { board = some b }) h
        (record {
          has_board = refl;
          has_status = h.ready.filled.has_status;
          has_roadmap = h.ready.filled.has_roadmap;
          has_ideation = h.ready.filled.has_ideation;
          has_changelog = h.ready.filled.has_changelog;
        })
        h.same_spec refl h.same_runs

  pub write_status-Leads :
      (st : ProjectStatus)
      → Leads p s (write File.status p.id (λ d. record d { status = some st })) w tt v
  write_status-Leads st =
      Leads-write p s File.status (λ d. record d { status = some st }) h
        (record {
          has_board = h.ready.filled.has_board;
          has_status = refl;
          has_roadmap = h.ready.filled.has_roadmap;
          has_ideation = h.ready.filled.has_ideation;
          has_changelog = h.ready.filled.has_changelog;
        })
        h.same_spec h.same_board h.same_runs

  pub get_task-Leads : {t : Task} → v.spec.task ≡ some t → Leads p s (get_task now p.id s) w t v
  unfolding get_task
  get_task-Leads e = Leads-with_project p s now _ h (read_task-Leads e)

module _ (p : Project) (s : String) (now : Time) {v : View} {w : World} (h : At p s v w) where
  move_in-Leads :
      (to : String) {t : Task}
      → v.spec.task ≡ some t
      → Leads p s
          (move_in now s to p)
          w
          (record t { status = to; updated_at = now })
          (moved now s to t v)
  unfolding move_in
  move_in-Leads to {t} e = Leads-bind p s _ _ (read_task-Leads p s now h e) λ u₁ h₁.
      Leads-bind p s _ _ (read_board-Leads p s now h₁) λ u₂ h₂.
        Leads-bind p s _ _
          (Leads-write_spec p s File.task
            (λ d. record d { task = some (record t { status = to; updated_at = now }) }) h₂)
          λ u₃ h₃.
            Leads-bind p s _ _ (put_board-Leads p s now h₃ (move_on_board s to v.board))
              λ u₄ h₄. Leads-pure p s h₄

  pub move_task-Leads :
      (to : String) {t : Task}
      → contains board_columns (trim_space to) ≡ true
      → v.spec.task ≡ some t
      → Leads p s
          (move_task now p.id s to)
          w
          (record t { status = trim_space to; updated_at = now })
          (moved now s (trim_space to) t v)
  unfolding move_task
  move_task-Leads to c e =
      rw (c, move_task) (Leads-with_project p s now _ h (move_in-Leads (trim_space to) e))

-- A spec with a task has a directory.
has_dir :
    {p : Project} {s : String} {v : View} {w : World} {t : Task}
    → At p s v w
    → v.spec.task ≡ some t
    → (d : SpecDir) × (lookup s (dir p.id w).specs ≡ some d)
has_dir {p} {s} {v} {w} h e = elim (Option-cases (lookup s (dir p.id w).specs)) [
  | inl k ↦
      absurd (cc (e, ap (λ (d : SpecDir). d.task) h.same_spec, ap (λ d. (spec_or_empty d).task) k))
  | inr (d, k) ↦ (d, k)
]

pub write_spec_file-Leads :
    (p : Project) (s : String) (f : File) (change : SpecDir → SpecDir) {v : View} {w : World}
    {t : Task}
    → At p s v w
    → v.spec.task ≡ some t
    → Leads p s (write_spec_file f p s change) w tt (record v { spec = change v.spec })
unfolding write_spec_file
write_spec_file-Leads p s f change {v} {w} h e =
    let (d, k) = has_dir h e in
    let n = Leads-write_spec p s f change h in
    record { after = n.after; runs_to = opened d k ∙ n.runs_to; at = n.at }
  where
    opened :
        (d : SpecDir)
        → lookup s (dir p.id w).specs ≡ some d
        → write_spec_file f p s change w ≡ write_spec f p s change w
    opened d k =
        ap (λ m. elim m [ none ↦ fail no_such_file w | some _ ↦ write_spec f p s change w ]) k
