-- ===== src/Store/Creating/Created.antt =====
-- `CreateTask`: what a success leaves on disk, told field by field.
use opm_api.Prelude.{
  if◌then◌else◌, ◌++◌, nz, trim_space, trim_space-trim_space, ◌<◌, String, false, some, List, [],
  ◌∷◌, ◌==◌, ◌≡◌, refl, ap, ◌∙◌, contains, ok, int_max, update,
}
use opm_api.Models.{Time, Task}
use opm_api.Board.{add_to_backlog}
use opm_api.World.{World}
use opm_api.World.Layout.{dir}
use opm_api.World.Layout.Laws.{board_or_empty}
use opm_api.Store.SpecIds.{max_number}
use opm_api.Store.View.{stored_task, board_of}
use opm_api.Store.Creating.{entry_names, NewTask, new_task, create_task}
use opm_api.Store.Creating.Laws.{Writes, Asked, create_task-Writes}

-- The task tells what the request asks for, told field by field, under an id with no entry yet.
pub record IsNewTask (now : Time) (uuid : String) (n : NewTask) (names : List String) (t : Task)
    : Type 0 where
  pub same_id : t.id ≡ uuid
  pub fresh : contains names t.spec_id ≡ false
  pub titled : t.title ≡ (if trim_space n.title == "" then "Untitled task" else trim_space n.title)
  pub described : t.description ≡ n.description
  pub waiting : t.status ≡ "backlog"
  pub same_review : t.require_review_before_coding ≡ n.require_review
  pub same_human : t.human_review_required ≡ some n.human_review_required
  pub same_idea : (t.ideation_id ≡ n.ideation_id) × (t.ideation_type_key ≡ n.ideation_type)
  pub dated : (t.created_at ≡ now) × (t.updated_at ≡ now)
  pub undelivered : (t.delivery_status ≡ "") × (t.pr_number ≡ 0) × (t.github_issue_number ≡ 0)

-- What is on disk after a creation, told without the code's board operation.
pub record IsWritten (id : String) (t : Task) (w w' : World) : Type 0 where
  pub stored : stored_task id t.spec_id w' ≡ some t
  pub backlog : board_of id w' "backlog" ≡ board_of id w "backlog" ++ t.spec_id ∷ []
  pub other_columns : (c : String) → ("backlog" == c) ≡ false → board_of id w' c ≡ board_of id w c
  pub same_registry : w'.registry ≡ w.registry
  pub other_tasks :
      (j : String) → (t.spec_id == j) ≡ false → stored_task id j w' ≡ stored_task id j w
  pub other_projects : (j : String) → (id == j) ≡ false → w'.projects j ≡ w.projects j

Asked-IsNewTask :
    {now : Time} {uuid : String} {n : NewTask} {names : List String} {t : Task}
    → Asked now uuid n names t
    → IsNewTask now uuid n names t
unfolding new_task nz
Asked-IsNewTask {n = n} b = record {
  same_id = ap (λ (x : Task). x.id) b.built;
  fresh = b.fresh;
  titled = ap (λ (x : Task). x.title) b.built ∙ rw (trim_space-trim_space n.title) refl;
  described = ap (λ (x : Task). x.description) b.built;
  waiting = ap (λ (x : Task). x.status) b.built;
  same_review = ap (λ (x : Task). x.require_review_before_coding) b.built;
  same_human = ap (λ (x : Task). x.human_review_required) b.built;
  same_idea =
      (ap (λ (x : Task). x.ideation_id) b.built, ap (λ (x : Task). x.ideation_type_key) b.built);
  dated = (ap (λ (x : Task). x.created_at) b.built, ap (λ (x : Task). x.updated_at) b.built);
  undelivered = (
    ap (λ (x : Task). x.delivery_status) b.built,
    ap (λ (x : Task). x.pr_number) b.built,
    ap (λ (x : Task). x.github_issue_number) b.built,
  );
}

Writes-IsWritten : {id : String} {t : Task} {w w' : World} → Writes id t w w' → IsWritten id t w w'
unfolding add_to_backlog update
Writes-IsWritten m = record {
  stored = m.stored;
  backlog = ap (λ b. board_or_empty b "backlog") m.board;
  other_columns = λ c n. ap (λ b. board_or_empty b c) m.board ∙ rw n refl;
  same_registry = m.same_registry;
  other_tasks = m.other_tasks;
  other_projects = m.other_projects;
}

-- A `CreateTask` that succeeds, where the largest number of a spec is below the largest int,
-- returns a task in the backlog with the title (or "Untitled task"), the description and the flags of
-- the request, under a spec id with no entry yet. It stores the task, puts its spec id at the end of
-- the backlog and leaves every other column, and changes no other task and no other project.
pub create_task-ok :
    (now : Time) (uuid : String) (n : NewTask) (id : String) (w : World) {t : Task}
    → max_number 0 (entry_names (dir id w).specs) < int_max
    → (create_task now uuid id n w).0 ≡ ok t
    → IsNewTask now uuid n (entry_names (dir id w).specs) t
      × IsWritten id t w (create_task now uuid id n w).1
create_task-ok now uuid n id w r h =
    let (asked, m) = create_task-Writes now uuid n id w r h in
    (Asked-IsNewTask asked, Writes-IsWritten m)
