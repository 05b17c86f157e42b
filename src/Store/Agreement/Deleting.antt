-- ===== src/Store/Agreement/Deleting.antt =====
-- `DeleteTask`: the board and the stored tasks after them.
use opm_api.Prelude.{
  String, Bool, true, false, none, ◌==◌, ◌≡◌, refl, ap, sym, subst, ◌∙◌, arith, count, contains,
  Result, ok, lookup, lookup-delete, eq_iff, eq_refl, update, if◌then◌else◌, Bool-cases, inl, inr,
}
use opm_api.Models.{Time, Project, board_columns, empty_board}
use opm_api.Board.Laws.{count-take_off_board}
use opm_api.World.{File, World, Done, write, attempt, ignore, ◌>>=◌}
use opm_api.World.Layout.{dir}
use opm_api.World.Layout.Laws.{IsLaidOut, Entered, unknown, stopped, entered, with_project-Entered}
use opm_api.Store.View.{stored_task, board_of}
use opm_api.Store.Tasks.{spec_or_empty, read, delete_in, delete_task}
use opm_api.Store.Agreement.{Agrees}

-- What a deletion that succeeded has done, if the board could be written.
pub record IsDeleted (id spec_id : String) (w w' : World) : Type 0 where
  pub no_task : stored_task id spec_id w' ≡ none
  pub off_board :
      (c j : String)
      → contains board_columns c ≡ true
      → count j (board_of id w' c) ≡ (if j == spec_id then 0 else count j (board_of id w c))
  pub other_tasks : (j : String) → (spec_id == j) ≡ false → stored_task id j w' ≡ stored_task id j w
  pub other_projects : (j : String) → (id == j) ≡ false → w'.projects j ≡ w.projects j

no_card : (c j : String) → count j (empty_board c) ≡ 0
unfolding count empty_board
no_card c j = refl

delete_in-ok :
    (spec_id : String) (p : Project) (w : World)
    → w.writable File.board ≡ true
    → (delete_in spec_id p w).0 ≡ ok tt
    → IsDeleted p.id spec_id w (delete_in spec_id p w).1
unfolding delete_in ◌>>=◌ attempt ignore read write update
delete_in-ok spec_id p w b h = record {
  no_task =
      ground
        (arith, eq_refl p.id, eq_refl spec_id, lookup-delete spec_id spec_id (dir p.id w).specs);
  off_board = λ c j k.
      ground
        (arith, eq_refl p.id, count-take_off_board spec_id (board_of p.id w) c j k, no_card c j);
  other_tasks = λ j n. ground (arith, eq_refl p.id, lookup-delete spec_id j (dir p.id w).specs);
  other_projects = λ j n. ground arith;
}

IsDeleted-Agrees :
    {id spec_id : String} {w w' : World} → IsDeleted id spec_id w w' → Agrees id w → Agrees id w'
IsDeleted-Agrees {id} {spec_id} m a j c k = elim (Bool-cases (spec_id == j)) [
  | inl e ↦ ground (arith, eq_iff spec_id j, eq_iff j spec_id, m.off_board c j k, m.no_task)
  | inr n ↦
      ground
        (arith, eq_iff spec_id j, eq_iff j spec_id, m.off_board c j k, m.other_tasks j n, a j c k)
]

IsDeleted-IsLaidOut :
    {id spec_id : String} {u v w : World}
    → IsLaidOut id u v
    → IsDeleted id spec_id v w
    → IsDeleted id spec_id u w
IsDeleted-IsLaidOut {id} {spec_id} l m = record {
  no_task = m.no_task;
  off_board =
      λ c j k. m.off_board c j k ∙ ap (λ b. if j == spec_id then 0 else count j (b c)) l.same_board;
  other_tasks = λ j n. m.other_tasks j n ∙ ap (λ s. (spec_or_empty (lookup j s)).task) l.same_specs;
  other_projects = λ j n. m.other_projects j n ∙ l.others j n;
}

enter_delete :
    {id : String} (spec_id : String) (w : World) (out : Result Done × World)
    → w.writable File.board ≡ true
    → Entered id (delete_in spec_id) w out
    → out.0 ≡ ok tt
    → IsDeleted id spec_id w out.1
enter_delete spec_id w out b (unknown _ q) h = cc (ap (λ (o : Result Done × World). o.0) q)
enter_delete spec_id w out b (stopped e w' l q) h = cc (ap (λ (o : Result Done × World). o.0) q)
enter_delete spec_id w out b (entered p w' e i l q) h = rw (← i) (
    IsDeleted-IsLaidOut (subst (λ j. IsLaidOut j w w') (sym i) l) (
      subst (λ (o : Result Done × World). IsDeleted p.id spec_id w' o.1) (sym q)
        (delete_in-ok spec_id p w' (ap (λ (f : File → Bool). f File.board) l.same_writable ∙ b)
          (ap (λ (o : Result Done × World). o.0) (sym q) ∙ h))))

module _ (now : Time) (id spec_id : String) (w : World) (b : w.writable File.board ≡ true)
    (h : (delete_task now id spec_id w).0 ≡ ok tt) where
  -- A `DeleteTask` that succeeds while the board can be written removes the stored task and takes its
  -- id off the columns of the workflow. It leaves every other id there, and changes no other task and
  -- no other project.
  delete_task-ok : IsDeleted id spec_id w (delete_task now id spec_id w).1
  unfolding delete_task
  delete_task-ok = enter_delete spec_id w _ b (with_project-Entered now id (delete_in spec_id) w) h

  -- A `DeleteTask` that succeeds while the board can be written keeps the board and the stored tasks
  -- in agreement.
  pub delete_task-Agrees : Agrees id w → Agrees id (delete_task now id spec_id w).1
  delete_task-Agrees a = IsDeleted-Agrees delete_task-ok a
