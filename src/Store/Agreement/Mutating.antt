-- ===== src/Store/Agreement/Mutating.antt =====
-- `MutateTask`: what a success leaves on disk.
use opm_api.Prelude.{
  String, false, some, ◌==◌, ◌≡◌, ap, sym, subst, ◌∙◌, arith, count, Result, ok, lookup,
  lookup-insert, eq_iff, eq_refl, update, Bool-cases, Option-cases, inl, inr,
}
use opm_api.Models.{Time, Project, Board, Task}
use opm_api.World.{World, write, ◌>>=◌}
use opm_api.World.Layout.{dir}
use opm_api.World.Layout.Laws.{IsLaidOut, Entered, unknown, stopped, entered, with_project-Entered}
use opm_api.Store.View.{stored_task, board_of}
use opm_api.Store.Tasks.{spec_or_empty, read, read_spec, write_spec, mutate_in, mutate_task}
use opm_api.Store.Agreement.{Agrees}

module _ (now : Time) (spec_id : String) (mut : Task → Task) where
  -- What a mutation that succeeded with `t` has done.
  pub record IsMutated (id : String) (t : Task) (w w' : World) : Type 0 where
    pub made :
        (t₀ : Task) × (stored_task id spec_id w ≡ some t₀)
        × (t ≡ record (mut t₀) { updated_at = now })
    pub stored : stored_task id spec_id w' ≡ some t
    pub same_board : board_of id w' ≡ board_of id w
    pub other_tasks :
        (j : String) → (spec_id == j) ≡ false → stored_task id j w' ≡ stored_task id j w
    pub other_projects : (j : String) → (id == j) ≡ false → w'.projects j ≡ w.projects j

  mutate_in-ok :
      (p : Project) (w : World) {t : Task}
      → (mutate_in now spec_id mut p w).0 ≡ ok t
      → IsMutated p.id t w (mutate_in now spec_id mut p w).1
  unfolding mutate_in ◌>>=◌ read_spec read write_spec write update
  mutate_in-ok p w {t} h = elim (Option-cases (stored_task p.id spec_id w)) [
    | inl e ↦ absurd (ground arith)
    | inr (t₀, e) ↦ record {
      made = (t₀, e, ground arith);
      stored = ground (
        arith,
        eq_refl p.id,
        eq_refl spec_id,
        lookup-insert spec_id spec_id
            (record (spec_or_empty (lookup spec_id (dir p.id w).specs)) { task = some t })
            (dir p.id w).specs,
      );
      same_board = ground (arith, eq_refl p.id);
      other_tasks = λ j n. ground (
        arith,
        eq_refl p.id,
        lookup-insert spec_id j
            (record (spec_or_empty (lookup spec_id (dir p.id w).specs)) { task = some t })
            (dir p.id w).specs,
      );
      other_projects = λ j n. ground arith;
    }
  ]

  IsMutated-IsLaidOut :
      {id : String} {t : Task} {u v w : World}
      → IsLaidOut id u v
      → IsMutated id t v w
      → IsMutated id t u w
  IsMutated-IsLaidOut l m = record {
    made =
        let (t₀, e, q) = m.made in
        (t₀, sym (ap (λ s. (spec_or_empty (lookup spec_id s)).task) l.same_specs) ∙ e, q);
    stored = m.stored;
    same_board = m.same_board ∙ l.same_board;
    other_tasks =
        λ j n. m.other_tasks j n ∙ ap (λ s. (spec_or_empty (lookup j s)).task) l.same_specs;
    other_projects = λ j n. m.other_projects j n ∙ l.others j n;
  }

  enter_mutate :
      {id : String} (w : World) (out : Result Task × World) {t : Task}
      → Entered id (mutate_in now spec_id mut) w out
      → out.0 ≡ ok t
      → IsMutated id t w out.1
  enter_mutate w out (unknown _ q) h = cc (ap (λ (o : Result Task × World). o.0) q)
  enter_mutate w out (stopped e w' l q) h = cc (ap (λ (o : Result Task × World). o.0) q)
  enter_mutate w out {t} (entered p w' e i l q) h = rw (← i) (
      IsMutated-IsLaidOut (subst (λ j. IsLaidOut j w w') (sym i) l) (
        subst (λ (o : Result Task × World). IsMutated p.id t w' o.1) (sym q)
          (mutate_in-ok p w' (ap (λ (o : Result Task × World). o.0) (sym q) ∙ h))))

  -- A `MutateTask` that succeeds applied its function to the stored task, stamped the time, stored
  -- the task that it returns, and changed no board, no other task and no other project.
  pub mutate_task-ok :
      (id : String) (w : World) {t : Task}
      → (mutate_task now id spec_id mut w).0 ≡ ok t
      → IsMutated id t w (mutate_task now id spec_id mut w).1
  unfolding mutate_task
  mutate_task-ok id w h =
      enter_mutate w _ (with_project-Entered now id (mutate_in now spec_id mut) w) h

  IsMutated-Agrees :
      {id : String} {t : Task} {w w' : World}
      → ((t₀ : Task) → (mut t₀).status ≡ t₀.status)
      → IsMutated id t w w'
      → Agrees id w
      → Agrees id w'
  IsMutated-Agrees {id} {t} {w} {w'} keeps m a j c k =
      let same : count j (board_of id w' c) ≡ count j (board_of id w c) =
        ap (λ (b : Board). count j (b c)) m.same_board in
      elim (Bool-cases (spec_id == j)) [
        | inl e ↦
            let (t₀, s, q) = m.made in
            ground (
              arith,
              eq_iff spec_id j,
              same,
              m.stored,
              s,
              ap (λ (t : Task). t.status) q ∙ keeps t₀,
              a j c k,
            )
        | inr n ↦ ground (arith, same, m.other_tasks j n, a j c k)
      ]

  -- A `MutateTask` that succeeds, with a function that keeps the status, keeps the board and the
  -- stored tasks in agreement.
  pub mutate_task-Agrees :
      (id : String) (w : World) {t : Task}
      → ((t₀ : Task) → (mut t₀).status ≡ t₀.status)
      → (mutate_task now id spec_id mut w).0 ≡ ok t
      → Agrees id w
      → Agrees id (mutate_task now id spec_id mut w).1
  mutate_task-Agrees id w keeps h a = IsMutated-Agrees keeps (mutate_task-ok id w h) a
