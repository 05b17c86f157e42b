-- ===== src/Store/Documents.antt =====
-- store.go: the documents of a project, and the list of its tasks.
use opm_api.Prelude.{String, none, some, List, [], ◌∷◌, ◌<>◌, ◌==◌, Dict, update, if◌then◌else◌}
use opm_api.Models.{Time, Task, Roadmap, Ideation, empty_ideation}
use opm_api.World.{File, SpecDir, Op, Done, pure, value_or, write}
use opm_api.World.Layout.{with_project}
use opm_api.Store.Tasks.{read}

-- The tasks of the directories that have one, in the order of the directories' names.
unfoldable pub tasks_of : Dict SpecDir → List Task
tasks_of [] = []
tasks_of ((name, d) ∷ entries) = elim d.task [
  | none ↦ tasks_of entries
  | some t ↦ t ∷ tasks_of entries
]

module _ (now : Time) (project_id : String) where
  unfoldable pub list_tasks : Op (List Task)
  unfolding tasks_of
  list_tasks = with_project now project_id λ p w. pure (tasks_of (w.projects p.id).specs) w

  unfoldable pub get_roadmap : Op Roadmap
  get_roadmap = with_project now project_id λ p. read (λ d. d.roadmap) p

  unfoldable pub put_roadmap : Roadmap → Op Done
  put_roadmap rm = with_project now project_id λ p. write File.roadmap p.id λ d. record d {
    roadmap = some (record rm { id = if rm.id == "" then "roadmap-1" else rm.id });
  }

  unfoldable pub get_ideation : Op Ideation
  get_ideation = with_project now project_id λ p. read (λ d. d.ideation) p

  -- `ideas, _ := GetIdeation`: on an error the ideas are empty, under every type.
  abbrev pub ideation_or_empty : Op Ideation
  ideation_or_empty = value_or empty_ideation get_ideation

  unfoldable pub put_ideation : Ideation → Op Done
  put_ideation ideas =
      with_project now project_id
        λ p. write File.ideation p.id λ d. record d { ideation = some ideas }

  unfoldable pub put_changelog : String → Op Done
  put_changelog content =
      with_project now project_id
        λ p. write File.changelog p.id λ d. record d { changelog = some content }

  unfoldable pub get_changelog : Op String
  get_changelog = with_project now project_id λ p. read (λ d. d.changelog) p

  -- The names of the logs are actions, which `filepath.Base` leaves alone.
  unfoldable pub append_project_log : String → String → Op Done
  append_project_log name line =
      with_project now project_id
        λ p. write File.log p.id λ d. record d { logs = update d.logs name (d.logs name <> line) }
