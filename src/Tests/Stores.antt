-- ===== src/Tests/Stores.antt =====
-- The operations of the store on the demo directory.
use opm_api.Prelude.{
  some, ◌<◌, ◌==◌, true, false, none, [], ◌∷◌, ◌≡◌, ◌⊎◌, refl, arith, ok, lookup, insert,
  trim_space, to_lower, trim_left, trim_right, trim, contains, update, nz, find, int_max, show,
  show_padded, digit, count, eq_iff, is_space, scan_number, scan_digits,
}
use opm_api.Models.{board_columns, Task, JobOrigin}
use opm_api.World.{write, ignore, value_or, attempt, ◌>>=◌}
use opm_api.World.Layout.{find_project, with_project, ensure_layout, write_if, dir}
use opm_api.Actions.{agent_key_for_action}
use opm_api.Store.SpecIds.{
  slugify, dash_runs, is_slug_char, skip_blanks, spec_number, max_number, number_text, next_spec_id,
}
use opm_api.Store.Tasks.{
  read, read_spec, write_spec, write_spec_file, move_in, move_task, mutate_in, mutate_task,
  delete_in, delete_task,
}
use opm_api.Store.Moving.{IsMoved, move_task-ok}
use opm_api.Store.Creating.{entry_names, new_task, write_new_task, create_in, create_task}
use opm_api.Store.Creating.Created.{IsNewTask, IsWritten, create_task-ok}
use opm_api.Store.Agreement.{Agrees, move_task-Agrees, create_task-Agrees}
use opm_api.Store.Agreement.Deleting.{delete_task-Agrees}
use opm_api.Store.Agreement.Mutating.{mutate_task-Agrees}
use opm_api.Store.View.{stored_task}
use opm_api.Store.Updating.{
  PatchValue, Patch, patch_task, update_task, apply_issue_patch, where_given, as_text, as_number,
  as_flag, set_issue_number, set_title,
}
use opm_api.Store.Updating.Laws.{reserved, update_task-reserved}
use opm_api.Store.Jobs.{new_job}
use opm_api.Store.Jobs.Laws.{new_job-pin}
use opm_api.Tests.Demo

demo_moves : (move_task 5 "p1" "001-a" " review " Demo.world).0 ≡ ok (Demo.task_in "review" 5)
unfolding move_task trim_space trim_left trim_right trim contains with_project find_project find
    ensure_layout write_if write ◌>>=◌ move_in read_spec read write_spec lookup update
demo_moves = refl

demo_creates :
    (create_task 5 "u2" "p1" Demo.request Demo.world).0
    ≡ ok (new_task 5 "u2" "002-hello" Demo.request)
unfolding create_task create_in next_spec_id spec_number max_number number_text slugify dash_runs
    is_slug_char skip_blanks trim_space trim_left trim_right trim to_lower nz show_padded show digit
    with_project find_project find ensure_layout write_if write ◌>>=◌ write_new_task read write_spec
    write_spec_file lookup update ignore value_or new_task insert scan_number scan_digits
demo_creates = refl

demo_deletes : (delete_task 5 "p1" "001-a" Demo.world).0 ≡ ok tt
unfolding delete_task with_project find_project find ensure_layout write_if write ◌>>=◌ delete_in
    read attempt ignore lookup update
demo_deletes = refl

abbrev retitled : Task → Task
retitled t = record t { title = "B" }

demo_mutates :
    (mutate_task 5 "p1" "001-a" retitled Demo.world).0
    ≡ ok (record (Demo.task_in "queue" 5) { title = "B" })
unfolding mutate_task with_project find_project find ensure_layout write_if write ◌>>=◌ mutate_in
    read_spec read write_spec lookup update
demo_mutates = refl

demo-Agrees : Agrees "p1" Demo.world
unfolding lookup count contains
demo-Agrees j c k =
    ground (arith, eq_iff "001-a" j, eq_iff j "001-a", eq_iff c "queue", eq_iff "queue" c)

demo_room : max_number 0 (entry_names (dir "p1" Demo.world).specs) < int_max
unfolding max_number spec_number skip_blanks scan_number scan_digits is_space
demo_room = omega arith

move_task-ok_example :
    (contains board_columns (trim_space " review ") ≡ true)
    × IsMoved 5 "p1" "001-a"
        (trim_space " review ")
        (Demo.task_in "review" 5)
        Demo.world
        (move_task 5 "p1" "001-a" " review " Demo.world).1
move_task-ok_example = move_task-ok 5 "p1" "001-a" " review " Demo.world demo_moves

move_task-Agrees_example : Agrees "p1" (move_task 5 "p1" "001-a" " review " Demo.world).1
move_task-Agrees_example =
    move_task-Agrees 5 "p1" "001-a" " review " Demo.world demo_moves demo-Agrees

abbrev created : Task
created = new_task 5 "u2" "002-hello" Demo.request

create_task-ok_example :
    IsNewTask 5 "u2" Demo.request (entry_names (dir "p1" Demo.world).specs) created
    × IsWritten "p1" created Demo.world (create_task 5 "u2" "p1" Demo.request Demo.world).1
create_task-ok_example = create_task-ok 5 "u2" Demo.request "p1" Demo.world demo_room demo_creates

create_task-Agrees_example : Agrees "p1" (create_task 5 "u2" "p1" Demo.request Demo.world).1
create_task-Agrees_example =
    create_task-Agrees 5 "u2" Demo.request "p1" Demo.world demo_room demo_creates demo-Agrees

delete_task-Agrees_example : Agrees "p1" (delete_task 5 "p1" "001-a" Demo.world).1
delete_task-Agrees_example =
    delete_task-Agrees 5 "p1" "001-a" Demo.world refl demo_deletes demo-Agrees

mutate_task-Agrees_example : Agrees "p1" (mutate_task 5 "p1" "001-a" retitled Demo.world).1
mutate_task-Agrees_example =
    mutate_task-Agrees 5 "001-a" retitled "p1" Demo.world (λ t. refl) demo_mutates demo-Agrees

abbrev patch : Patch
patch = ("title", PatchValue.text "B") ∷ ("githubIssueNumber", PatchValue.number 7) ∷ []

demo_updates :
    (update_task 5 "p1" "001-a" patch Demo.world).0
    ≡ ok (record (Demo.task_in "queue" 5) { title = "B"; github_issue_number = 7 })
unfolding update_task mutate_task with_project find_project find ◌>>=◌ ensure_layout write write_if
    update mutate_in read_spec read lookup write_spec patch_task apply_issue_patch where_given
    as_text as_number as_flag set_issue_number set_title trim_space trim_left trim_right trim
demo_updates = refl

update_task-reserved_example :
    (t₀ : Task) × (stored_task "p1" "001-a" Demo.world ≡ some t₀)
    × (reserved (record (Demo.task_in "queue" 5) { title = "B"; github_issue_number = 7 })
        ≡ reserved t₀)
    × (stored_task "p1" "001-a" (update_task 5 "p1" "001-a" patch Demo.world).1
        ≡ some (record (Demo.task_in "queue" 5) { title = "B"; github_issue_number = 7 }))
    × Agrees "p1" (update_task 5 "p1" "001-a" patch Demo.world).1
update_task-reserved_example =
    update_task-reserved 5 "001-a" patch "p1" Demo.world demo_updates demo-Agrees

abbrev origin : JobOrigin
origin = record {
  organization_id = "o1";
  actor_username = "ada";
  model_override = none;
  resolved_provider = "openai";
  resolved_model = "m";
  resolved_model_source = "user";
  resolved_key_scope = "user";
  resolved_agent_key = "coding";
}

new_job-pin_example :
    let j = new_job 5 "u3" "p1" "run-implementation" "001-a" "" origin in
    (j.actor_username ≡ "ada")
    × (j.organization_id ≡ "o1")
    × (j.agent_key ≡ agent_key_for_action "run-implementation")
    × (((j.resolved_model ≡ "m")
          × ((j.agent_key == "") ≡ false)
          × (trim_space "coding" ≡ trim_space j.agent_key))
        ⊎ ((j.resolved_model ≡ "") × (j.resolved_provider ≡ "") × (j.resolved_agent_key ≡ "")))
new_job-pin_example = new_job-pin 5 "u3" "p1" "run-implementation" "001-a" "" origin
