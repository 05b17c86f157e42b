-- ===== src/Store/Running/Enqueuing.antt =====
-- The jobs of a ready project: reading them, and creating and updating one.
use opm_api.Prelude.{String, true, none, some, ok, ◌≡◌, refl, ap, map, lookup, insert}
use opm_api.Models.{Time, Project, idle_status, Job, JobOrigin}
use opm_api.Actions.{map_action_to_state, unsupported_review_action}
use opm_api.World.{File, World, write}
use opm_api.Store.Tasks.{read}
use opm_api.Store.Jobs.{
  new_job, write_new_job, create_job_with_origin, get_job, list_jobs, update_job,
}
use opm_api.Store.Running.{
  View, At, Leads, Leads-pure, Leads-ignore, Leads-then, Leads-with_project, Leads-write,
}
use opm_api.Store.Running.Moves.{write_status-Leads}

-- The view after a write of a job.
abbrev pub with_run : Job → View → View
with_run j v = record v { runs = insert j.run_id j v.runs }

module _ (p : Project) (s : String) (now : Time) {v : View} {w : World} (h : At p s v w) where
  pub list_jobs-Leads : Leads p s (list_jobs now p.id) w (map (λ e. e.1) v.runs) v
  unfolding list_jobs read
  list_jobs-Leads =
      Leads-with_project p s now _ h
        (record { after = w; runs_to = ap (λ r. (ok (map (λ e. e.1) r), w)) h.same_runs; at = h })

  pub get_job-Leads :
      (run_id : String) {j : Job}
      → lookup run_id v.runs ≡ some j
      → Leads p s (get_job now p.id run_id) w j v
  unfolding get_job read
  get_job-Leads run_id e =
      Leads-with_project p s now _ h
        (record { after = w; runs_to = rw (h.same_runs, read) (rw e refl); at = h })

  write-run-Leads :
      (j : Job)
      → Leads p s
          (write File.run p.id (λ d. record d { runs = insert j.run_id j d.runs }))
          w
          tt
          (with_run j v)
  write-run-Leads j =
      Leads-write p s File.run (λ d. record d { runs = insert j.run_id j d.runs }) h
        (record {
          has_board = h.ready.filled.has_board;
          has_status = h.ready.filled.has_status;
          has_roadmap = h.ready.filled.has_roadmap;
          has_ideation = h.ready.filled.has_ideation;
          has_changelog = h.ready.filled.has_changelog;
        })
        h.same_spec h.same_board (ap (insert j.run_id j) h.same_runs)

  pub update_job-Leads :
      (j : Job)
      → Leads p s (update_job now p.id j) w tt (with_run (record j { updated_at = now }) v)
  unfolding update_job
  update_job-Leads j =
      Leads-with_project p s now _ h (write-run-Leads (record j { updated_at = now }))

module _ (p : Project) (s : String) (now : Time) {v : View} {w : World} (h : At p s v w) where
  pub create_job-Leads :
      (uuid action spec_id image : String) (origin : JobOrigin)
      → unsupported_review_action action ≡ none
      → let j = new_job now uuid p.id action spec_id image origin in
        Leads p s
          (create_job_with_origin now uuid p.id action spec_id image origin)
          w
          j
          (with_run j v)
  unfolding create_job_with_origin write_new_job
  create_job-Leads uuid action spec_id image origin e =
      let j = new_job now uuid p.id action spec_id image origin in
      let l₁ = write-run-Leads p s now h j in
      let l₂ = Leads-ignore p s _ (
        write_status-Leads p s now l₁.at (record (idle_status now) {
          active = true;
          spec = j.spec_id;
          state = map_action_to_state j.action;
          run_id = j.run_id;
        })) in
      rw (e, create_job_with_origin)
        (Leads-with_project p s now _ h
          (Leads-then p s _ _ l₁ (Leads-then p s _ _ l₂ (Leads-pure p s l₂.at))))
