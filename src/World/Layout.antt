-- ===== src/World/Layout.antt =====
-- `ensureLayoutLocked` and `withProject` of store.go: the files that every operation on a project
-- first sees to.
pub mod Laws
use opm_api.Prelude.{
  ℕ, String, Bool, true, false, Option, none, some, List, [], ◌∷◌, ◌==◌, find, ok, if◌then◌else◌,
}
use opm_api.Models.{Time, Project, empty_board, idle_status, empty_ideation, Roadmap}
use opm_api.World.{
  File, dirs, board, status, roadmap, ideation, changelog, ProjectDir, World, Op, pure, fail, ◌>>=◌,
  ◌>>◌, write, Done,
}

abbrev pub is_missing {ℓ} : {A : Type ℓ} → Option A → Bool
is_missing none = true
is_missing (some _) = false

-- `if _, err := os.Stat(path); os.IsNotExist(err) { … }`
unfoldable pub write_if : (ProjectDir → Bool) → File → String → (ProjectDir → ProjectDir) → Op Done
unfolding write
write_if missing f id change w = if missing (w.projects id) then write f id change w else (ok tt, w)

unfoldable pub first_roadmap : Project → Roadmap
first_roadmap p = record {
  id = "roadmap-1";
  project_name = p.name;
  version = "0.1.0";
  vision = "";
  target_audience = "";
  phases = [];
  features = [];
  metadata = [];
}

unfoldable pub first_changelog : String
first_changelog = "# Changelog\n\nNo entries yet.\n"

abbrev pub dir : String → World → ProjectDir
dir id w = w.projects id

unfoldable pub ensure_layout : Time → Project → Op Done
ensure_layout now p = do
  write dirs p.id (λ d. d)
  write_if (λ d. is_missing d.board) board p.id (λ d. record d { board = some empty_board })
  write_if (λ d. is_missing d.status) status p.id
      (λ d. record d { status = some (idle_status now) })
  write_if (λ d. is_missing d.roadmap) roadmap p.id
      (λ d. record d { roadmap = some (first_roadmap p) })
  write_if (λ d. is_missing d.ideation) ideation p.id
      (λ d. record d { ideation = some empty_ideation })
  write_if (λ d. is_missing d.changelog) changelog p.id
      (λ d. record d { changelog = some first_changelog })

-- `GetProject`.
unfoldable pub find_project : String → List Project → Option Project
unfolding find
find_project id ps = find (λ p. p.id == id) ps

unfoldable pub get_project : String → Op Project
unfolding find_project
get_project id w = elim (find_project id w.registry) [
  | none ↦ fail "project not found" w
  | some p ↦ pure p w
]

unfoldable pub with_project : {A : Type 0} → Time → String → (Project → Op A) → Op A
with_project now id fn w = elim (find_project id w.registry) [
  | none ↦ fail "project not found" w
  | some p ↦ (ensure_layout now p >>= λ _. fn p) w
]
