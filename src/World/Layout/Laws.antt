-- ===== src/World/Layout/Laws.antt =====
-- What seeing to the files of a project changes: only files that were missing.
use opm_api.Prelude.{
  String, Bool, true, false, Option, none, some, List, [], ◌∷◌, Result, ok, err, ◌≡◌, refl, arith,
  ◌==◌, eq_iff, eq_refl, Option-cases, subst, ◌∙◌, Bool-cases, inl, inr, update,
}
use opm_api.Models.{Time, Project, Board, empty_board}
use opm_api.World.{File, World, Op, ◌>>=◌, Done, ProjectDir, write, dirs}
use opm_api.World.Steps.{Always, Always-bind, IsPreorder}
use opm_api.World.Layout.{dir, ensure_layout, find_project, with_project, is_missing, write_if}

abbrev pub board_or_empty : Option Board → Board
board_or_empty none = empty_board
board_or_empty (some b) = b

-- `w'` is `w` with, at most, files of the project `id` that were missing.
pub record IsLaidOut (id : String) (w w' : World) : Type 0 where
  pub same_registry : w'.registry ≡ w.registry
  pub same_writable : w'.writable ≡ w.writable
  pub same_specs : (dir id w').specs ≡ (dir id w).specs
  pub same_runs : (dir id w').runs ≡ (dir id w).runs
  pub same_board : board_or_empty (dir id w').board ≡ board_or_empty (dir id w).board
  pub others : (j : String) → (id == j) ≡ false → w'.projects j ≡ w.projects j

IsLaidOut-refl : (id : String) (w : World) → IsLaidOut id w w
IsLaidOut-refl id w = record {
  same_registry = refl;
  same_writable = refl;
  same_specs = refl;
  same_runs = refl;
  same_board = refl;
  others = λ j h. refl;
}

IsLaidOut-IsPreorder : (id : String) → IsPreorder (IsLaidOut id)
IsLaidOut-IsPreorder id = record {
  rel_refl = IsLaidOut-refl id;
  rel_trans = λ u v w h k. record {
    same_registry = k.same_registry ∙ h.same_registry;
    same_writable = k.same_writable ∙ h.same_writable;
    same_specs = k.same_specs ∙ h.same_specs;
    same_runs = k.same_runs ∙ h.same_runs;
    same_board = k.same_board ∙ h.same_board;
    others = λ j n. k.others j n ∙ h.others j n;
  };
}

abbrev LaysOut : {A : Type 0} → String → Op A → Type 0
LaysOut id m = Always (IsLaidOut id) m

-- A change that keeps what `IsLaidOut` speaks of.
record Fills (d d' : ProjectDir) : Type 0 where
  specs : d'.specs ≡ d.specs
  runs : d'.runs ≡ d.runs
  board : board_or_empty d'.board ≡ board_or_empty d.board

LaysOut-write_if :
    (missing : ProjectDir → Bool) (f : File) (id : String) (change : ProjectDir → ProjectDir)
    → ((d : ProjectDir) → missing d ≡ true → Fills d (change d))
    → LaysOut id (write_if missing f id change)
unfolding write_if update
LaysOut-write_if missing f id change h = record {
  at = λ w. elim (Bool-cases (missing (w.projects id))) [
    | inr e ↦ rw (e, write_if) (IsLaidOut-refl id w)
    | inl e ↦ elim (Bool-cases (w.writable f)) [
      | inr e' ↦ rw (e, write_if) (rw (e', write) (IsLaidOut-refl id w))
      | inl e' ↦
          let k = h (w.projects id) e in
          rw (e, write_if)
            (rw (e', write)
              (record {
                same_registry = refl;
                same_writable = refl;
                same_specs = rw (eq_refl id) k.specs;
                same_runs = rw (eq_refl id) k.runs;
                same_board = rw (eq_refl id) k.board;
                others = λ j n. rw n;
              }))
    ]
  ];
}

LaysOut-write_dirs : (id : String) → LaysOut id (write dirs id (λ d. d))
unfolding write update
LaysOut-write_dirs id = record {
  at = λ w. elim (Bool-cases (w.writable dirs)) [
    | inr e ↦ rw (e, write) (IsLaidOut-refl id w)
    | inl e ↦
        rw (e, write)
          (record {
            same_registry = refl;
            same_writable = refl;
            same_specs = rw (eq_refl id);
            same_runs = rw (eq_refl id);
            same_board = rw (eq_refl id);
            others = λ j n. rw n;
          })
  ];
}

Fills-board :
    (d : ProjectDir) → is_missing d.board ≡ true → Fills d (record d { board = some empty_board })
Fills-board d h = ground arith

pub ensure_layout-LaysOut : (now : Time) (p : Project) → LaysOut p.id (ensure_layout now p)
unfolding ensure_layout
ensure_layout-LaysOut now p =
    Always-bind (IsLaidOut-IsPreorder p.id) _ _ (LaysOut-write_dirs p.id) λ _.
      Always-bind (IsLaidOut-IsPreorder p.id) _ _ (LaysOut-write_if _ _ _ _ Fills-board) λ _.
        Always-bind (IsLaidOut-IsPreorder p.id) _ _
          (LaysOut-write_if _ _ _ _ (λ d h. record { specs = refl; runs = refl; board = refl }))
          λ _.
            Always-bind (IsLaidOut-IsPreorder p.id) _ _
              (LaysOut-write_if _ _ _ _ (λ d h. record { specs = refl; runs = refl; board = refl }))
              λ _.
                Always-bind (IsLaidOut-IsPreorder p.id) _ _
                  (LaysOut-write_if _ _ _ _
                    (λ d h. record { specs = refl; runs = refl; board = refl }))
                  λ _.
                    LaysOut-write_if _ _ _ _
                      (λ d h. record { specs = refl; runs = refl; board = refl })

-- How an operation inside a project comes out.
pub data Entered {A : Type 0} (id : String) (fn : Project → Op A) (w : World)
    (out : Result A × World) : Type 0 where
  unknown :
      find_project id w.registry ≡ none → out ≡ (err "project not found", w) → Entered id fn w out
  stopped : (e : String) (w' : World) → IsLaidOut id w w' → out ≡ (err e, w') → Entered id fn w out
  entered :
      (p : Project) (w' : World)
      → find_project id w.registry ≡ some p
      → p.id ≡ id
      → IsLaidOut id w w'
      → out ≡ fn p w'
      → Entered id fn w out

find-id : (id : String) (ps : List Project) {p : Project} → find_project id ps ≡ some p → p.id ≡ id
unfolding find_project
find-id id [] h = cc
find-id id (q ∷ ps) {p} h = elim (Bool-cases (q.id == id)) [
  | inl e ↦ ground (arith, (eq_iff q.id id).0 e)
  | inr e ↦ find-id id ps {p = p} (ground arith)
]

-- An operation inside a project fails with "project not found" if none is registered. Otherwise it
-- fails before its start, after the making of missing files at most, or runs on the directory in
-- which they were made.
pub with_project-Entered :
    {A : Type 0} (now : Time) (id : String) (fn : Project → Op A) (w : World)
    → Entered id fn w (with_project now id fn w)
unfolding with_project ◌>>=◌
with_project-Entered {A} now id fn w = elim (Option-cases (find_project id w.registry)) [
  | inl e ↦ unknown e (rw (e, with_project))
  | inr (p, e) ↦
      let l = (ensure_layout-LaysOut now p).at w in
      go p e (ensure_layout now p w).0 (ensure_layout now p w).1 l refl
]
  where
    go :
        (p : Project)
        → find_project id w.registry ≡ some p
        → (r : Result Done) (w' : World) → IsLaidOut p.id w w'
        → ensure_layout now p w ≡ (r, w')
        → Entered id fn w (with_project now id fn w)
    go p e (ok a) w' l q =
        entered p w' e (find-id id w.registry e)
          (subst (λ i. IsLaidOut i w w') (find-id id w.registry e) l)
          (rw (e, with_project) (rw (q, ◌>>=◌)))
    go p e (err x) w' l q =
        stopped x w' (subst (λ i. IsLaidOut i w w') (find-id id w.registry e) l)
          (rw (e, with_project) (rw (q, ◌>>=◌)))
