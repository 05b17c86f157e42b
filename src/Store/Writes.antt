-- ===== src/Store/Writes.antt =====
-- What a write below `specs/<specId>` leaves alone.
use opm_api.Prelude.{
  String, false, ◌==◌, ◌≡◌, refl, ap, ◌∙◌, arith, update, lookup, insert, lookup-insert, ok, err,
  eq_refl, if◌then◌else◌, Bool-cases, Option-cases, inl, inr,
}
use opm_api.Models.{Project}
use opm_api.World.{File, SpecDir, World, Done, write}
use opm_api.World.Layout.{dir}
use opm_api.World.Steps.{Always, IsPreorder}
use opm_api.Store.View.{stored_task}
use opm_api.Store.Tasks.{spec_or_empty, write_spec, write_spec_file}

-- `w'` differs from `w` in the directory of one spec at most.
pub record IsNear (id spec_id : String) (w w' : World) : Type 0 where
  pub same_registry : w'.registry ≡ w.registry
  pub same_writable : w'.writable ≡ w.writable
  pub same_board : (dir id w').board ≡ (dir id w).board
  pub same_runs : (dir id w').runs ≡ (dir id w).runs
  pub other_specs :
      (j : String)
      → (spec_id == j) ≡ false
      → spec_or_empty (lookup j (dir id w').specs) ≡ spec_or_empty (lookup j (dir id w).specs)
  pub other_projects : (j : String) → (id == j) ≡ false → w'.projects j ≡ w.projects j

-- And its task is the same.
pub record IsKept (id spec_id : String) (w w' : World) : Type 0 where
  pub near : IsNear id spec_id w w'
  pub open near use *
  pub same_task : stored_task id spec_id w' ≡ stored_task id spec_id w

pub IsNear-IsPreorder : (id spec_id : String) → IsPreorder (IsNear id spec_id)
IsNear-IsPreorder id spec_id = record {
  rel_refl = λ w. record {
    same_registry = refl;
    same_writable = refl;
    same_board = refl;
    same_runs = refl;
    other_specs = λ j n. refl;
    other_projects = λ j n. refl;
  };
  rel_trans = λ u v w h k. record {
    same_registry = k.same_registry ∙ h.same_registry;
    same_writable = k.same_writable ∙ h.same_writable;
    same_board = k.same_board ∙ h.same_board;
    same_runs = k.same_runs ∙ h.same_runs;
    other_specs = λ j n. k.other_specs j n ∙ h.other_specs j n;
    other_projects = λ j n. k.other_projects j n ∙ h.other_projects j n;
  };
}

pub IsKept-IsPreorder : (id spec_id : String) → IsPreorder (IsKept id spec_id)
IsKept-IsPreorder id spec_id = record {
  rel_refl = λ w. record { near = (IsNear-IsPreorder id spec_id).rel_refl w; same_task = refl };
  rel_trans = λ u v w h k. record {
    near = (IsNear-IsPreorder id spec_id).rel_trans u v w h.near k.near;
    same_task = k.same_task ∙ h.same_task;
  };
}

module _ (f : File) (p : Project) (spec_id : String) (change : SpecDir → SpecDir) where
  abbrev written : World → World
  written w = record w {
    projects = update w.projects p.id (record (dir p.id w) {
      specs =
          insert spec_id (change (spec_or_empty (lookup spec_id (dir p.id w).specs)))
            (dir p.id w).specs;
    });
  }

  write_spec_lem :
      (w : World)
      → write_spec f p spec_id change w
        ≡ (if w.writable f then (ok tt, written w) else (err "write failed", w))
  unfolding write_spec write
  write_spec_lem w = refl

  spec_written :
      (w : World) (j : String)
      → spec_or_empty (lookup j (dir p.id (written w)).specs) ≡ (
          if spec_id == j
          then change (spec_or_empty (lookup spec_id (dir p.id w).specs))
          else spec_or_empty (lookup j (dir p.id w).specs))
  unfolding update
  spec_written w j = ground (
    arith,
    eq_refl p.id,
    lookup-insert spec_id j (change (spec_or_empty (lookup spec_id (dir p.id w).specs)))
        (dir p.id w).specs,
  )

  written-IsNear : (w : World) → IsNear p.id spec_id w (written w)
  written-IsNear w = record {
    same_registry = refl;
    same_writable = refl;
    same_board = unfold update in rw (eq_refl p.id);
    same_runs = unfold update in rw (eq_refl p.id);
    other_specs = λ j n. spec_written w j ∙ rw n;
    other_projects = λ j n. unfold update in rw n;
  }

  pub write_spec-IsNear : Always (IsNear p.id spec_id) (write_spec f p spec_id change)
  write_spec-IsNear = record {
    at = λ w. elim (Bool-cases (w.writable f)) [
      | inl e ↦ rw (write_spec_lem w) (rw e (written-IsNear w))
      | inr e ↦ rw (write_spec_lem w) (rw e ((IsNear-IsPreorder p.id spec_id).rel_refl w))
    ];
  }

  module _ (keeps : (d : SpecDir) → (change d).task ≡ d.task) where
    pub write_spec-IsKept : Always (IsKept p.id spec_id) (write_spec f p spec_id change)
    write_spec-IsKept = record {
      at = λ w. elim (Bool-cases (w.writable f)) [
        | inl e ↦ rw (write_spec_lem w) (
            rw e (record {
              near = written-IsNear w;
              same_task =
                  ap (λ (d : SpecDir). d.task) (spec_written w spec_id)
                  ∙ rw (eq_refl spec_id) (keeps _);
            }))
        | inr e ↦ rw (write_spec_lem w) (rw e ((IsKept-IsPreorder p.id spec_id).rel_refl w))
      ];
    }

    pub write_spec_file-IsKept : Always (IsKept p.id spec_id) (write_spec_file f p spec_id change)
    write_spec_file-IsKept = record {
      at = λ w. elim (Option-cases (lookup spec_id (dir p.id w).specs)) [
        | inl e ↦
            unfold write_spec_file in
            rw (e, write_spec_file) ((IsKept-IsPreorder p.id spec_id).rel_refl w)
        | inr (d, e) ↦ unfold write_spec_file in rw (e, write_spec_file) (write_spec-IsKept.at w)
      ];
    }

  -- A success has written.
  pub write_spec-ok :
      (w : World) {u : Done}
      → (write_spec f p spec_id change w).0 ≡ ok u
      → spec_or_empty (lookup spec_id (dir p.id (write_spec f p spec_id change w).1).specs)
        ≡ change (spec_or_empty (lookup spec_id (dir p.id w).specs))
  write_spec-ok w h = elim (Bool-cases (w.writable f)) [
    | inl e ↦ rw (write_spec_lem w) (rw e (spec_written w spec_id ∙ rw (eq_refl spec_id)))
    | inr e ↦ absurd (ground (arith, write_spec_lem w))
  ]
