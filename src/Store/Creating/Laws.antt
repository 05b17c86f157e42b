-- ===== src/Store/Creating/Laws.antt =====
-- `CreateTask`: what a success writes, with what the code makes of the request.
use opm_api.Prelude.{
  ◌<>◌, nz, trim_space, ◌<◌, String, false, none, some, List, [], ◌∷◌, ◌==◌, ◌≡◌, refl, ap, sym,
  subst, ◌∙◌, arith, lookup, contains, Result, ok, eq_refl, eq_iff, int_max, Dict, update,
}
use opm_api.Models.{Time, Project, empty_board, no_progress, Task}
use opm_api.Board.{add_to_backlog}
use opm_api.World.{File, SpecDir, World, Op, write, ignore, value_or, pure, ◌>>=◌, ◌>>◌}
use opm_api.World.Steps.{bind-eq-ok}
use opm_api.Store.Writes.{
  IsNear, IsKept, IsNear-IsPreorder, IsKept-IsPreorder, write_spec-IsNear, write_spec-IsKept,
  write_spec_file-IsKept, write_spec-ok,
}
use opm_api.World.Layout.{dir}
use opm_api.World.Layout.Laws.{
  IsLaidOut, Entered, unknown, board_or_empty, stopped, entered, with_project-Entered,
}
use opm_api.Store.SpecIds.{max_number, next_spec_id}
use opm_api.Store.SpecIds.Fresh.{next_spec_id_fresh}
use opm_api.Store.View.{stored_task, board_of}
use opm_api.Store.Tasks.{spec_or_empty, read, write_spec, write_spec_file}
use opm_api.Store.Creating.{
  entry_names, NewTask, new_task, write_new_task, create_in, create_task, first_plan,
}

pub lookup-none_of_contains :
    {V : Type 0} (k : String) (m : Dict V) → contains (entry_names m) k ≡ false → lookup k m ≡ none
unfolding lookup contains
lookup-none_of_contains k [] h = refl
lookup-none_of_contains k ((j, v) ∷ m) h =
    ground (arith, lookup-none_of_contains k m, eq_iff j k, eq_iff k j)

-- What a creation that succeeded has written, with the board that the code makes.
pub record Writes (id : String) (t : Task) (w w' : World) : Type 0 where
  pub stored : stored_task id t.spec_id w' ≡ some t
  pub board : (dir id w').board ≡ some (add_to_backlog t.spec_id (board_of id w))
  pub same_registry : w'.registry ≡ w.registry
  pub other_tasks :
      (j : String) → (t.spec_id == j) ≡ false → stored_task id j w' ≡ stored_task id j w
  pub other_projects : (j : String) → (id == j) ≡ false → w'.projects j ≡ w.projects j

-- The end of the writes: the board.
abbrev put_on_board : Task → Project → Op Task
put_on_board t p = do
  b ← value_or empty_board (read (λ d. d.board) p)
  write File.board p.id (λ d. record d { board = some (add_to_backlog t.spec_id b) })
  pure t

put_on_board-ok :
    (t : Task) (p : Project) (w : World) {t' : Task}
    → (put_on_board t p w).0 ≡ ok t'
    → (t ≡ t')
      × (put_on_board t p w ≡ (
        ok t,
        record w {
          projects =
              update w.projects p.id
                (record (dir p.id w) { board = some (add_to_backlog t.spec_id (board_of p.id w)) });
        },
      ))
unfolding ◌>>=◌ value_or read write
put_on_board-ok t p w h = (ground arith, ground arith)

-- The writes whose errors are dropped.
abbrev describe : Task → Project → World → World
describe t p w =
    let w1 =
      (write_spec File.plan p t.spec_id (λ d. record d { plan = some (first_plan t.title) }) w).1 in
    let w2 =
      (write_spec File.progress p t.spec_id (λ d. record d { progress = some no_progress }) w1).1 in
    (write_spec_file File.spec_md p t.spec_id
      (λ d. record d { spec_md = some ("# " <> t.title <> "\n\n" <> t.description <> "\n") }) w2).1

describe-IsKept : (t : Task) (p : Project) (w : World) → IsKept p.id t.spec_id w (describe t p w)
describe-IsKept t p w =
    let pre = IsKept-IsPreorder p.id t.spec_id in
    pre.rel_trans _ _ _ ((write_spec-IsKept _ p t.spec_id _ λ d. refl).at w) (
      pre.rel_trans _ _ _ ((write_spec-IsKept _ p t.spec_id _ λ d. refl).at _)
        ((write_spec_file-IsKept _ p t.spec_id _ λ d. refl).at _))

abbrev fill_in : Task → Project → Op Task
fill_in t p = do
  ignore (write_spec File.plan p t.spec_id (λ d. record d { plan = some (first_plan t.title) }))
  ignore (write_spec File.progress p t.spec_id (λ d. record d { progress = some no_progress }))
  ignore (
      write_spec_file File.spec_md p t.spec_id
        (λ d. record d { spec_md = some ("# " <> t.title <> "\n\n" <> t.description <> "\n") }))
  put_on_board t p

fill_in_describes :
    (t : Task) (p : Project) (w : World) → fill_in t p w ≡ put_on_board t p (describe t p w)
unfolding ◌>>=◌ ignore
fill_in_describes t p w = refl

fill_in-ok :
    (t : Task) (p : Project) (w : World) {t' : Task}
    → (fill_in t p w).0 ≡ ok t'
    → stored_task p.id t.spec_id w ≡ some t
    → (t ≡ t') × Writes p.id t w (fill_in t p w).1
unfolding update
fill_in-ok t p w h s =
    let k = describe-IsKept t p w in
    let (e, q) = put_on_board-ok t p (describe t p w) (rw (fill_in_describes t p w) at h) in
    (
      e,
      rw (fill_in_describes t p w) (
          rw q (record {
            stored = rw (stored_task, eq_refl p.id) (k.same_task ∙ s);
            board =
                rw (eq_refl p.id)
                  (ap (λ b. some (add_to_backlog t.spec_id (board_or_empty b))) k.same_board);
            same_registry = k.same_registry;
            other_tasks = λ j n.
                rw (stored_task, eq_refl p.id) (ap (λ (d : SpecDir). d.task) (k.other_specs j n));
            other_projects = λ j n. rw n (k.other_projects j n);
          })),
    )

Writes-IsNear :
    {id : String} {t : Task} {u v w : World}
    → IsNear id t.spec_id u v
    → Writes id t v w
    → Writes id t u w
Writes-IsNear {id} {t} n m = record {
  stored = m.stored;
  board = m.board ∙ ap (λ b. some (add_to_backlog t.spec_id (board_or_empty b))) n.same_board;
  same_registry = m.same_registry ∙ n.same_registry;
  other_tasks = λ j e. m.other_tasks j e ∙ ap (λ (d : SpecDir). d.task) (n.other_specs j e);
  other_projects = λ j e. m.other_projects j e ∙ n.other_projects j e;
}

write_new_task-ok :
    (t : Task) (p : Project) (w : World) {t' : Task}
    → (write_new_task t p w).0 ≡ ok t'
    → (t ≡ t') × Writes p.id t w (write_new_task t p w).1
unfolding write_new_task
write_new_task-ok t p w h =
    let dirs_of = write_spec File.dirs p t.spec_id (λ d. d) in
    let task_of = write_spec File.task p t.spec_id (λ d. record d { task = some t }) in
    let (_, _, q, h') = bind-eq-ok dirs_of (λ _. task_of >>= λ _. fill_in t p) w h in
    let (_, e, q', h'') = bind-eq-ok task_of (λ _. fill_in t p) (dirs_of w).1 h' in
    let near =
      (IsNear-IsPreorder p.id t.spec_id).rel_trans w _ _
        ((write_spec-IsNear File.dirs p t.spec_id (λ d. d)).at w)
        ((write_spec-IsNear File.task p t.spec_id (λ d. record d { task = some t })).at
          (dirs_of w).1) in
    let s =
      ap (λ (d : SpecDir). d.task)
        (write_spec-ok File.task p t.spec_id (λ d. record d { task = some t }) (dirs_of w).1 e) in
    let (k, m) = fill_in-ok t p (task_of (dirs_of w).1).1 h'' s in
    (k, rw q (rw q' (Writes-IsNear near m)))

-- The task is the one that the code makes of the request, under an id with no entry yet.
pub record Asked (now : Time) (uuid : String) (n : NewTask) (names : List String) (t : Task)
    : Type 0 where
  pub built : t ≡ new_task now uuid t.spec_id n
  pub fresh : contains names t.spec_id ≡ false

Writes-IsLaidOut :
    {id : String} {t : Task} {u v w : World} → IsLaidOut id u v → Writes id t v w → Writes id t u w
Writes-IsLaidOut {id} {t} l m = record {
  stored = m.stored;
  board = m.board ∙ ap (λ b. some (add_to_backlog t.spec_id b)) l.same_board;
  same_registry = m.same_registry ∙ l.same_registry;
  other_tasks = λ j n. m.other_tasks j n ∙ ap (λ s. (spec_or_empty (lookup j s)).task) l.same_specs;
  other_projects = λ j n. m.other_projects j n ∙ l.others j n;
}

module _ (now : Time) (uuid : String) (n : NewTask) where
  create_in-ok :
      (p : Project) (w : World) {t : Task}
      → max_number 0 (entry_names (dir p.id w).specs) < int_max
      → (create_in now uuid n p w).0 ≡ ok t
      → Asked now uuid n (entry_names (dir p.id w).specs) t
        × Writes p.id t w (create_in now uuid n p w).1
  unfolding create_in new_task
  create_in-ok p w r h =
      let names = entry_names (dir p.id w).specs in
      let title = nz (trim_space n.title) "Untitled task" in
      let t = new_task now uuid (next_spec_id names title) n in
      let (e, m) = write_new_task-ok t p w h in
      rw (← e) (record { built = refl; fresh = next_spec_id_fresh names title r }, m)

  enter_create :
      {id : String} (w : World) (out : Result Task × World) {t : Task}
      → max_number 0 (entry_names (dir id w).specs) < int_max
      → Entered id (create_in now uuid n) w out
      → out.0 ≡ ok t
      → Asked now uuid n (entry_names (dir id w).specs) t × Writes id t w out.1
  enter_create w out r (unknown _ q) h = cc (ap (λ (o : Result Task × World). o.0) q)
  enter_create w out r (stopped e w' l q) h = cc (ap (λ (o : Result Task × World). o.0) q)
  enter_create w out {t} r (entered p w' e i l q) h =
      let (a, m) =
        create_in-ok p w' {t = t}
          (rw i (subst (λ s. max_number 0 (entry_names s) < int_max) (sym l.same_specs) r))
          (ap (λ (o : Result Task × World). o.0) (sym q) ∙ h) in
      rw (← i) (
        subst (λ s. Asked now uuid n (entry_names s) t)
            (subst (λ j. IsLaidOut j w w') (sym i) l).same_specs a,
        subst (λ (o : Result Task × World). Writes p.id t w o.1) (sym q)
            (Writes-IsLaidOut (subst (λ j. IsLaidOut j w w') (sym i) l) m),
      )

  pub create_task-Writes :
      (id : String) (w : World) {t : Task}
      → max_number 0 (entry_names (dir id w).specs) < int_max
      → (create_task now uuid id n w).0 ≡ ok t
      → Asked now uuid n (entry_names (dir id w).specs) t
        × Writes id t w (create_task now uuid id n w).1
  unfolding create_task
  create_task-Writes id w r h =
      enter_create w _ r (with_project-Entered now id (create_in now uuid n) w) h
