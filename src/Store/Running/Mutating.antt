-- ===== src/Store/Running/Mutating.antt =====
-- `MutateTask` in a ready project.
use opm_api.Prelude.{String, some, ◌≡◌}
use opm_api.Models.{Time, Project, Task}
use opm_api.World.{File, World}
use opm_api.Store.Tasks.{mutate_in, mutate_task}
use opm_api.Store.Running.{
  View, At, Leads, Leads-pure, Leads-then, Leads-with_project, Leads-write_spec,
}
use opm_api.Store.Running.Moves.{read_task-Leads}

-- The view after a mutation of a task.
abbrev pub mutated : Time → (Task → Task) → Task → View → View
mutated now mut t v = record v {
  spec = record (v.spec) { task = some (record (mut t) { updated_at = now }) };
}

pub mutate_task-Leads :
    (p : Project) (s : String) (now : Time) {v : View} {w : World}
    → At p s v w
    → (mut : Task → Task) {t : Task} → v.spec.task ≡ some t
    → Leads p s
        (mutate_task now p.id s mut)
        w
        (record (mut t) { updated_at = now })
        (mutated now mut t v)
unfolding mutate_task mutate_in
mutate_task-Leads p s now h mut {t} e =
    let l₁ = read_task-Leads p s now h e in
    let l₂ =
      Leads-write_spec p s File.task
        (λ d. record d { task = some (record (mut t) { updated_at = now }) }) l₁.at in
    Leads-with_project p s now (mutate_in now s mut) h
      (Leads-then p s _ _ l₁ (Leads-then p s _ _ l₂ (Leads-pure p s l₂.at)))
