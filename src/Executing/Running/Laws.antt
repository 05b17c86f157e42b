-- ===== src/Executing/Running/Laws.antt =====
-- A job of a paused task, in a ready project.
use opm_api.Prelude.{
  String, true, false, none, some, ◌<>◌, ◌==◌, ◌≡◌, refl, subst, update, lookup, Bool-cases, inl,
  inr, if◌then◌else◌,
}
use opm_api.Models.{Time, Project, Job}
use opm_api.Actions.{is_pause_exempt}
use opm_api.World.{File, World, pure, ignore}
use opm_api.Store.Documents.{append_project_log}
use opm_api.Store.Running.{
  View, At, Leads, progress_of, Leads-pure, Leads-ignore, Leads-then, Leads-with_project,
  Leads-write,
}
use opm_api.Store.Running.Enqueuing.{with_run, update_job-Leads}
use opm_api.Runner.Pausing.{paused_message, task_paused_block}
use opm_api.Runner.Implementing.Laws.{own}
use opm_api.Runner.Pausing.Laws.{task_paused_block-Leads}
use opm_api.Autopilot.{Settings}
use opm_api.Executing.{JobHosts, Clock}
use opm_api.Executing.Ending.{failed_job}
use opm_api.Executing.Ending.Laws.{fail_job-Leads, lookup-with_run}
use opm_api.Executing.Spawning.{Spawned, running_job, spawn}
use opm_api.Executing.Running.{act_unless_paused, run_job}

module _ (p : Project) (s : String) (now : Time) {v : View} {w : World} (h : At p s v w) where
  append_project_log-Leads :
      (name line : String) → Leads p s (append_project_log now p.id name line) w tt v
  unfolding append_project_log
  append_project_log-Leads name line = Leads-with_project p s now _ h (
      Leads-write p s File.log (λ d. record d { logs = update d.logs name (d.logs name <> line) }) h
        (record {
          has_board = h.ready.filled.has_board;
          has_status = h.ready.filled.has_status;
          has_roadmap = h.ready.filled.has_roadmap;
          has_ideation = h.ready.filled.has_ideation;
          has_changelog = h.ready.filled.has_changelog;
        })
        h.same_spec h.same_board h.same_runs)

module _ {S : Type 0} (hosts : JobHosts S) (clock : Clock) (cfg : Settings) (uuid : String)
    (q : Project) where
  abbrev builtin_spawned : String → String → Job → Spawned
  builtin_spawned note message j = record {
    job = running_job hosts clock cfg uuid "builtin" message j;
    execution = "builtin";
    note = note;
    result = none;
  }

  spawn-Leads :
      (note dir : String) (j : Job) {v : View} {w : World}
      → At (own q j) j.spec_id v w
      → cfg.container ≡ false
      → (message : String) × Leads
          (own q j)
          j.spec_id
          (spawn hosts clock cfg uuid note dir j)
          w
          (builtin_spawned note message j)
          v
  unfolding spawn
  spawn-Leads note dir j h c = elim (Bool-cases (j.action == "run-pipeline")) [
    | inl e ↦ (
      "Running task pipeline: plan → implement all subtasks → park in review…",
      rw (e, spawn) (Leads-pure (own q j) j.spec_id h),
    )
    | inr e ↦ (
      "Running builtin action " <> j.action <> "…",
      rw (e, spawn) (rw c (Leads-pure (own q j) j.spec_id h)),
    )
  ]

  -- The job is recorded as failed for the pause, and nothing of the task or the board has changed.
  pub record Blocked (run_id : String) (v v' : View) : Type 0 where
    pub recorded : Job
    pub found : lookup run_id v'.runs ≡ some recorded
    pub is_failed : recorded.state ≡ "failed"
    pub for_pause : recorded.error ≡ "paused"
    pub told : recorded.message ≡ paused_message
    pub same_spec : v'.spec ≡ v.spec
    pub same_board : v'.board ≡ v.board

  log_clone-Leads :
      (clone : String) (j : Job) (line : String) {v : View} {w : World}
      → At (own q j) j.spec_id v w
      → Leads
          (own q j)
          j.spec_id
          (if clone == ""
            then pure tt
            else ignore (append_project_log clock.now j.project_id j.action line))
          w
          tt
          v
  log_clone-Leads clone j line h = elim (Bool-cases (clone == "")) [
    | inl e ↦ rw e (Leads-pure (own q j) j.spec_id h)
    | inr e ↦ rw e (
        Leads-ignore (own q j) j.spec_id _
          (append_project_log-Leads (own q j) j.spec_id clock.now h j.action line))
  ]

  paused-Leads :
      (j : Job) {v : View} {w : World}
      → At (own q j) j.spec_id v w
      → (j.spec_id == "") ≡ false
      → is_pause_exempt j.action ≡ false
      → (progress_of v.spec).paused ≡ true
      → Leads (own q j) j.spec_id (task_paused_block clock.now j) w (some paused_message) v
  paused-Leads j {v} {w} h n x f =
      subst
        (λ b.
          Leads (own q j) j.spec_id (task_paused_block clock.now j) w
            (if b then none else some paused_message) v)
        x
        (subst
          (λ b.
            Leads (own q j) j.spec_id (task_paused_block clock.now j) w
              (if is_pause_exempt j.action then none else (if b then some paused_message else none))
              v)
          f (task_paused_block-Leads q clock.now j h n))

  act_unless_paused-Blocked :
      (action dir session_dir : String) (s : Spawned) {v : View} {w : World}
      → At (own q s.job) s.job.spec_id v w
      → (s.job.spec_id == "") ≡ false
      → is_pause_exempt s.job.action ≡ false
      → (progress_of v.spec).paused ≡ true
      → (v' : View) × Blocked s.job.run_id v v'
        × Leads
            (own q s.job)
            s.job.spec_id
            (act_unless_paused hosts clock cfg uuid action dir session_dir s)
            w
            none
            v'
  unfolding act_unless_paused
  act_unless_paused-Blocked action dir session_dir s {v} h n x f =
      let p = own q s.job in
      let i = s.job.spec_id in
      let j : Job = record (s.job) { progress_pct = some 20 } in
      let l₁ = Leads-ignore p i _ (update_job-Leads p i clock.now h j) in
      let l₂ = paused-Leads j l₁.at n x f in
      let l₃ =
        fail_job-Leads cfg clock.now uuid action q j s.execution paused_message "paused" l₂.at in
      (
        _,
        record {
          recorded = record (failed_job clock.now s.execution paused_message "paused" j) {
            updated_at = clock.now;
          };
          found =
              lookup-with_run cfg clock.now uuid action q
                (record (failed_job clock.now s.execution paused_message "paused" j) {
                  updated_at = clock.now;
                })
                (with_run (record j { updated_at = clock.now }) v);
          is_failed = refl;
          for_pause = refl;
          told = refl;
          same_spec = refl;
          same_board = refl;
        },
        Leads-then p i _ _ l₁
            (Leads-then p i _ _ l₂ (Leads-then p i _ _ l₃ (Leads-pure p i l₃.at))),
      )

  -- In a ready project, and where no container is used, a job of a paused task that is not exempt runs
  -- nothing from the point where its workspace is ready: it fails for the pause, and the task, its
  -- files and the board are left as they are there, after the note that the preparation of the
  -- workspace may have put into the task's log.
  pub run_job-Blocked :
      (action clone dir session_dir : String) (j : Job) {v : View} {w : World}
      → At (own q j) j.spec_id v w
      → (j.spec_id == "") ≡ false
      → is_pause_exempt j.action ≡ false
      → (progress_of v.spec).paused ≡ true
      → cfg.container ≡ false
      → (v' : View) × Blocked j.run_id v v'
        × Leads
            (own q j)
            j.spec_id
            (run_job hosts clock cfg uuid action clone dir session_dir j)
            w
            none
            v'
  unfolding run_job
  run_job-Blocked action clone dir session_dir j {v} h n x f c =
      let p = own q j in
      let l₁ = log_clone-Leads clone j _ h in
      let note = if clone == "" then "" else clone <> " " in
      let (message, l₂) = spawn-Leads note dir j l₁.at c in
      let (v', blocked, l₃) =
        act_unless_paused-Blocked action dir session_dir (builtin_spawned note message j) l₂.at n x
          f in
      (v', blocked, Leads-then p j.spec_id _ _ l₁ (Leads-then p j.spec_id _ _ l₂ l₃))
