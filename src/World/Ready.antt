-- ===== src/World/Ready.antt =====
-- A project whose files are all there, in a directory that can be written: there no operation
-- fails before its start, and seeing to the files changes nothing.
use opm_api.Prelude.{String, Bool, true, false, some, ok, ◌≡◌, ap, arith, eq_iff, ◌∙◌, update}
use std.Path.{fun_ext}
use opm_api.World.Steps.{bind-run}
use opm_api.Models.{Time, Project}
use opm_api.World.{File, World, ProjectDir, Op, write}
use opm_api.World.Layout.{dir, ensure_layout, find_project, with_project, is_missing, write_if}

-- The files that `ensureLayoutLocked` would make are there.
pub record IsFilled (d : ProjectDir) : Type 0 where
  pub has_board : is_missing d.board ≡ false
  pub has_status : is_missing d.status ≡ false
  pub has_roadmap : is_missing d.roadmap ≡ false
  pub has_ideation : is_missing d.ideation ≡ false
  pub has_changelog : is_missing d.changelog ≡ false

pub record IsReady (p : Project) (w : World) : Type 0 where
  pub known : find_project p.id w.registry ≡ some p
  pub can_write : (f : File) → w.writable f ≡ true
  pub filled : IsFilled (dir p.id w)

-- A change of one project's directory.
abbrev pub with_dir : String → ProjectDir → World → World
with_dir id d w = record w { projects = update w.projects id d }

update_same : (m : String → ProjectDir) (k : String) → update m k (m k) ≡ m
unfolding update
update_same m k = fun_ext λ j. ground (arith, eq_iff k j)

with_dir_same : (id : String) (w : World) → with_dir id (dir id w) w ≡ w
with_dir_same id w = ap (λ m. record w { projects = m }) (update_same w.projects id)

pub write-ready :
    {p : Project} {w : World}
    → IsReady p w
    → (f : File) (change : ProjectDir → ProjectDir)
    → write f p.id change w ≡ (ok tt, with_dir p.id (change (dir p.id w)) w)
unfolding write
write-ready h f change = rw (h.can_write f)

write_if-present :
    (missing : ProjectDir → Bool) (f : File) (id : String) (change : ProjectDir → ProjectDir)
    (w : World)
    → missing (dir id w) ≡ false
    → write_if missing f id change w ≡ (ok tt, w)
unfolding write_if
write_if-present missing f id change w h = rw h

ensure_layout-ready :
    {p : Project} {w : World} → IsReady p w → (now : Time) → ensure_layout now p w ≡ (ok tt, w)
unfolding ensure_layout
ensure_layout-ready {p} {w} h now =
    bind-run _ _ (write-ready h File.dirs (λ d. d) ∙ ap (λ v. (ok tt, v)) (with_dir_same p.id w))
    ∙ bind-run _ _ (write_if-present _ _ p.id _ w h.filled.has_board)
    ∙ bind-run _ _ (write_if-present _ _ p.id _ w h.filled.has_status)
    ∙ bind-run _ _ (write_if-present _ _ p.id _ w h.filled.has_roadmap)
    ∙ bind-run _ _ (write_if-present _ _ p.id _ w h.filled.has_ideation)
    ∙ write_if-present _ _ p.id _ w h.filled.has_changelog

pub with_project-ready :
    {A : Type 0} {p : Project} {w : World}
    → IsReady p w
    → (now : Time) (fn : Project → Op A) → with_project now p.id fn w ≡ fn p w
unfolding with_project
with_project-ready {A} {p} {w} h now fn =
    rw (h.known, with_project) (bind-run _ _ (ensure_layout-ready h now))
