-- ===== src/Store/Moving.antt =====
-- `MoveTask` and `ApproveForCoding`: what a success and a failure leave on the board and on disk.
use opm_api.Prelude.{
  if◌then◌else◌, [], ◌∷◌, ◌++◌, Option-cases, String, true, false, some, ◌==◌, ◌≡◌, ap, sym, subst,
  ◌∙◌, arith, update, lookup, lookup-insert, contains, trim_space, Result, ok, eq_refl, Bool-cases,
  inl, inr,
}
use opm_api.Models.{Time, Project, board_columns, Task}
use opm_api.Board.{move_on_board}
use opm_api.Board.Laws.{others, move_on_board-column, move_on_board-outside}
use opm_api.World.{File, World, write}
use opm_api.World.Layout.{dir}
use opm_api.World.Layout.Laws.{
  board_or_empty, IsLaidOut, Entered, unknown, stopped, entered, with_project-Entered,
}
use opm_api.Store.View.{stored_task, board_of}
use opm_api.World.Steps.{bind-eq-ok}
use opm_api.Registry.Tenants.{ok-injective}
use opm_api.Store.Tasks.{read, read_spec, write_spec, spec_or_empty, move_in, move_task}

-- What a move that succeeded has written, with the board that the code makes.
pub record Writes (now : Time) (id spec_id to : String) (t : Task) (w w' : World) : Type 0 where
  pub made :
      (t₀ : Task) × (stored_task id spec_id w ≡ some t₀)
      × (t ≡ record t₀ { status = to; updated_at = now })
  pub stored : stored_task id spec_id w' ≡ some t
  pub board : (dir id w').board ≡ some (move_on_board spec_id to (board_of id w))
  pub same_registry : w'.registry ≡ w.registry
  pub other_tasks : (j : String) → (spec_id == j) ≡ false → stored_task id j w' ≡ stored_task id j w
  pub other_projects : (j : String) → (id == j) ≡ false → w'.projects j ≡ w.projects j

read_spec-ok :
    (spec_id : String) (p : Project) (w : World) {t : Task}
    → (read_spec (λ d. d.task) p spec_id w).0 ≡ ok t
    → stored_task p.id spec_id w ≡ some t
unfolding read_spec read
read_spec-ok spec_id p w h = elim (Option-cases (stored_task p.id spec_id w)) [
  | inl e ↦ absurd (ground arith)
  | inr (t, e) ↦ ground arith
]

move_in-made :
    (now : Time) (spec_id to : String) (p : Project) (w : World) {t : Task}
    → (move_in now spec_id to p w).0 ≡ ok t
    → (t₀ : Task) × (stored_task p.id spec_id w ≡ some t₀)
      × (t ≡ record t₀ { status = to; updated_at = now })
unfolding move_in
move_in-made now spec_id to p w {t} h =
    let (t₀, e, _, h₁) = bind-eq-ok (read_spec (λ d. d.task) p spec_id) _ w h in
    let w₁ = (read_spec (λ d. d.task) p spec_id w).1 in
    let (b, _, _, h₂) = bind-eq-ok (read (λ d. d.board) p) _ w₁ h₁ in
    let w₂ = (read (λ d. d.board) p w₁).1 in
    let t' = record t₀ { status = to; updated_at = now } in
    let task_of = write_spec File.task p spec_id (λ d. record d { task = some t' }) in
    let (_, _, _, h₃) = bind-eq-ok task_of _ w₂ h₂ in
    let board_of =
      write File.board p.id (λ d. record d { board = some (move_on_board spec_id to b) }) in
    let (_, _, _, h₄) = bind-eq-ok board_of _ (task_of w₂).1 h₃ in
    (t₀, read_spec-ok spec_id p w e, sym (ok-injective h₄))

move_in-ok :
    (now : Time) (spec_id to : String) (p : Project) (w : World) {t : Task}
    → (move_in now spec_id to p w).0 ≡ ok t
    → Writes now p.id spec_id to t w (move_in now spec_id to p w).1
unfolding move_in update
move_in-ok now spec_id to p w {t} h = record {
  made = move_in-made now spec_id to p w h;
  stored = ground (
    arith,
    eq_refl p.id,
    eq_refl spec_id,
    lookup-insert spec_id spec_id
        (record (spec_or_empty (lookup spec_id (dir p.id w).specs)) { task = some t })
        (dir p.id w).specs,
  );
  board = ground (arith, eq_refl p.id);
  same_registry = ground arith;
  other_tasks = λ j n. ground (
    arith,
    eq_refl p.id,
    lookup-insert spec_id j
        (record (spec_or_empty (lookup spec_id (dir p.id w).specs)) { task = some t })
        (dir p.id w).specs,
  );
  other_projects = λ j n. ground arith;
}

Writes-IsLaidOut :
    {now : Time} {id spec_id to : String} {t : Task} {u v w : World}
    → IsLaidOut id u v
    → Writes now id spec_id to t v w
    → Writes now id spec_id to t u w
Writes-IsLaidOut {now} {id} {spec_id} {to} l m = record {
  made =
      let (t₀, e, q) = m.made in
      (t₀, sym (ap (λ s. (spec_or_empty (lookup spec_id s)).task) l.same_specs) ∙ e, q);
  stored = m.stored;
  board = m.board ∙ ap (λ b. some (move_on_board spec_id to b)) l.same_board;
  same_registry = m.same_registry ∙ l.same_registry;
  other_tasks = λ j n. m.other_tasks j n ∙ ap (λ s. (spec_or_empty (lookup j s)).task) l.same_specs;
  other_projects = λ j n. m.other_projects j n ∙ l.others j n;
}

enter_move :
    {id : String} (now : Time) (spec_id to : String) (w : World) (out : Result Task × World)
    {t : Task}
    → Entered id (move_in now spec_id to) w out
    → out.0 ≡ ok t
    → Writes now id spec_id to t w out.1
enter_move now spec_id to w out (unknown _ q) h = cc (ap (λ (o : Result Task × World). o.0) q)
enter_move now spec_id to w out (stopped e w' l q) h = cc (ap (λ (o : Result Task × World). o.0) q)
enter_move now spec_id to w out {t} (entered p w' e i l q) h = rw (← i) (
    Writes-IsLaidOut (subst (λ j. IsLaidOut j w w') (sym i) l) (
      subst (λ (o : Result Task × World). Writes now p.id spec_id to t w' o.1) (sym q)
        (move_in-ok now spec_id to p w' (ap (λ (o : Result Task × World). o.0) (sym q) ∙ h))))

pub move_task-Writes :
    (now : Time) (id spec_id to : String) (w : World) {t : Task}
    → (move_task now id spec_id to w).0 ≡ ok t
    → (contains board_columns (trim_space to) ≡ true)
      × Writes now id spec_id (trim_space to) t w (move_task now id spec_id to w).1
unfolding move_task
move_task-Writes now id spec_id to w h =
    elim (Bool-cases (contains board_columns (trim_space to))) [
      | inr e ↦ absurd (ground arith)
      | inl e ↦ (
        e,
        let m = with_project-Entered now id (move_in now spec_id (trim_space to)) w in
            rw (e, move_task)
              (enter_move now spec_id (trim_space to) w _ m (rw (e, move_task) at h)),
      )
    ]

-- What is on disk after a move, told without the code's board operations: a column of the workflow
-- has the other ids in their order, and then the id where it is the column moved to.
pub record IsMoved (now : Time) (id spec_id to : String) (t : Task) (w w' : World) : Type 0 where
  pub made :
      (t₀ : Task) × (stored_task id spec_id w ≡ some t₀)
      × (t ≡ record t₀ { status = to; updated_at = now })
  pub stored : stored_task id spec_id w' ≡ some t
  pub column :
      (c : String)
      → contains board_columns c ≡ true
      → board_of id w' c
        ≡ others spec_id (board_of id w c) ++ (if c == to then spec_id ∷ [] else [])
  pub other_column :
      (c : String) → contains board_columns c ≡ false → board_of id w' c ≡ board_of id w c
  pub same_registry : w'.registry ≡ w.registry
  pub other_tasks : (j : String) → (spec_id == j) ≡ false → stored_task id j w' ≡ stored_task id j w
  pub other_projects : (j : String) → (id == j) ≡ false → w'.projects j ≡ w.projects j

-- A `MoveTask` that succeeds was given a column of the workflow, up to blanks around it. It stores
-- and returns the stored task with that status and the time of the update, and nothing else of it
-- changed. On the written board the task is taken off every column of the workflow and put at the
-- end of that one; the other ids keep their order, and a column outside the workflow is as it was.
-- No other task and no other project changes.
pub move_task-ok :
    (now : Time) (id spec_id to : String) (w : World) {t : Task}
    → (move_task now id spec_id to w).0 ≡ ok t
    → (contains board_columns (trim_space to) ≡ true)
      × IsMoved now id spec_id (trim_space to) t w (move_task now id spec_id to w).1
move_task-ok now id spec_id to w h =
    let (k, m) = move_task-Writes now id spec_id to w h in
    let b = board_of id w in
    let written = ap board_or_empty m.board in
    (
      k,
      record {
        made = m.made;
        stored = m.stored;
        column =
            λ c e. ap (λ x. x c) written ∙ move_on_board-column spec_id (trim_space to) b c k e;
        other_column =
            λ c e. ap (λ x. x c) written ∙ move_on_board-outside spec_id (trim_space to) b c k e;
        same_registry = m.same_registry;
        other_tasks = m.other_tasks;
        other_projects = m.other_projects;
      },
    )
