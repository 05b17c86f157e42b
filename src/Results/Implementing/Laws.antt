-- ===== src/Results/Implementing/Laws.antt =====
-- The files of a runner's result, in a ready project.
use opm_api.Prelude.{
  String, Bool, true, false, none, some, update, ◌<>◌, ◌==◌, Option-cases, length, show, join, nz,
  inl, inr, ◌≡◌, refl, is_empty, Bool-cases,
}
use opm_api.Models.{Time, Project, Job}
use opm_api.World.{World, Op, pure, ◌>>=◌}
use opm_api.Store.Running.{
  View, At, Leads, Leads-pure, Leads-ignore, Leads-try, Leads-then, append_spec_log-Leads,
}
use opm_api.Results.{RunnerResult}
use opm_api.Runner.Implementing.Laws.{own}
use opm_api.ChangeSet.Types.{ChangeSet}
use opm_api.ChangeSet.Normalize.{change_set_from_runner}
use opm_api.ChangeSet.Merge.{merge_change_set}
use opm_api.ChangeSet.Apply.{Limits, Workspace, apply_change_set}
use opm_api.ChangeSet.Recorded.{dated}
use opm_api.ChangeSet.Recorded.Laws.{recorded, merged-Leads}
use opm_api.Results.Implementing.{
  implementation_log, note_nothing, record_changes, after_applying,
  record_implementation_change_set,
}

module _ (now : Time) (base : Project) (j : Job) where
  abbrev pub told_changes : RunnerResult → ChangeSet
  told_changes rr = change_set_from_runner now j.run_id rr.files rr.model rr.commit_message

  -- The recorded changes stay as they were, and all but the logs with them.
  pub record LeftAlone (v v' : View) : Type 0 where
    pub same_task : v'.spec.task ≡ v.spec.task
    pub same_plan : v'.spec.plan ≡ v.spec.plan
    pub same_board : v'.board ≡ v.board
    pub same_runs : v'.runs ≡ v.runs
    pub same_changes : v'.spec.changes ≡ v.spec.changes

  -- The changes are merged into the recorded ones, and all else but the logs stays.
  pub record Merged (cs : ChangeSet) (v v' : View) : Type 0 where
    pub same_task : v'.spec.task ≡ v.spec.task
    pub same_plan : v'.spec.plan ≡ v.spec.plan
    pub same_board : v'.board ≡ v.board
    pub same_runs : v'.runs ≡ v.runs
    pub merged : v'.spec.changes ≡ some (dated now (merge_change_set now (recorded v) cs))

  abbrev with_log : String → View → View
  with_log text v = record v {
    spec = record (v.spec) {
      logs =
          update v.spec.logs "implementation"
            (v.spec.logs "implementation" <> ("[" <> j.run_id <> "] " <> text <> "\n"));
    };
  }

  implementation_log-Leads :
      {v : View} {w : World} (h : At (own base j) j.spec_id v w) (text : String)
      → Leads (own base j) j.spec_id (implementation_log now j text) w tt (with_log text v)
  unfolding implementation_log
  implementation_log-Leads h text =
      Leads-ignore (own base j) j.spec_id _
        (append_spec_log-Leads (own base j) j.spec_id now h "implementation" _)

  -- The sentence of a recording, with the number of the files of the change set.
  abbrev pub applied_text : ChangeSet → String
  applied_text cs =
      "Applied "
      <> (show (length cs.files) <> " file change(s)")
      <> " to the shared implementation workspace."

  record_changes-Leads :
      {v : View} {w : World} (h : At (own base j) j.spec_id v w) (cs : ChangeSet)
      → (v' : View) × Merged cs v v'
        × Leads (own base j) j.spec_id (record_changes now j cs) w (applied_text cs) v'
  unfolding record_changes
  record_changes-Leads h cs =
      let p = own base j in
      let l₁ = Leads-try p j.spec_id _ (merged-Leads p j.spec_id now h cs) in
      let l₂ = implementation_log-Leads l₁.at _ in
      (
        _,
        record {
          same_task = refl;
          same_plan = refl;
          same_board = refl;
          same_runs = refl;
          merged = refl;
        },
        Leads-then p j.spec_id _ _ l₁
            (Leads-then p j.spec_id _ _ l₂ (Leads-pure p j.spec_id l₂.at)),
      )

  with_log-LeftAlone : (line : String) (v : View) → LeftAlone v (with_log line v)
  with_log-LeftAlone line v = record {
    same_task = refl;
    same_plan = refl;
    same_board = refl;
    same_runs = refl;
    same_changes = refl;
  }

  logged-Leads :
      {v : View} {w : World} (h : At (own base j) j.spec_id v w) (line text : String)
      → Leads
          (own base j)
          j.spec_id
          (implementation_log now j line >>= λ _. pure text)
          w
          text
          (with_log line v)
  logged-Leads h line text =
      let l = implementation_log-Leads h line in
      Leads-then (own base j) j.spec_id _ _ l (Leads-pure (own base j) j.spec_id l.at)

module _ {S : Type 0} (now : Time) (ws : Workspace S) (limits : Limits) (session : Bool)
    (base : Project) (j : Job) where
  -- What is said of the files, what is recorded, and what the workspace is left as. Without a session's
  -- workspace the sentence is that of an application, though the files are recorded only.
  pub data Told (cs : ChangeSet) (host : S) (v : View) : String → S → View → Type 0 where
    nothing :
        {v' : View}
        → is_empty cs.files ≡ true
        → LeftAlone now base j v v'
        → Told cs host v "No source changes were produced this step." host v'
    not_applied :
        {why : String} {v' : View}
        → session ≡ true
        → (apply_change_set ws limits cs host).0.1 ≡ some why
        → LeftAlone now base j v v'
        → Told cs host v
            ("Produced "
              <> (show (length cs.files) <> " file change(s)")
              <> " but applying to the session workspace failed: "
              <> why
              <> ".")
            (apply_change_set ws limits cs host).1
            v'
    applied :
        {v' : View}
        → session ≡ true
        → is_empty cs.files ≡ false
        → (apply_change_set ws limits cs host).0.1 ≡ none
        → Merged now base j cs v v'
        → Told cs host v (applied_text now base j cs) (apply_change_set ws limits cs host).1 v'
    recorded_only :
        {v' : View}
        → session ≡ false
        → is_empty cs.files ≡ false
        → Merged now base j cs v v'
        → Told cs host v (applied_text now base j cs) host v'

  abbrev pub Tells : ChangeSet → S → View → World → Op (String × S) → Type 0
  Tells cs host v w m =
      (text : String) × (host' : S) × (v' : View) × Told cs host v text host' v'
      × Leads (own base j) j.spec_id m w (text, host') v'

  beside-Leads :
      {v' : View} {w : World} (m : Op String) (text : String) (host : S)
      → Leads (own base j) j.spec_id m w text v'
      → Leads (own base j) j.spec_id {A = String × S} (m >>= λ t. pure (t, host)) w (text, host) v'
  beside-Leads m text host l =
      Leads-then (own base j) j.spec_id m _ l (Leads-pure (own base j) j.spec_id l.at)

  session-Tells :
      {v : View} {w : World} (h : At (own base j) j.spec_id v w) (cs : ChangeSet) (host : S)
      → session ≡ true
      → is_empty cs.files ≡ false
      → let (out, host') = apply_change_set ws limits cs host in
        Tells cs host v w (after_applying now ws limits session j cs out >>= λ t. pure (t, host'))
  unfolding after_applying
  session-Tells {v} {w} h cs host k n =
      let host' = (apply_change_set ws limits cs host).1 in
      elim (Option-cases (apply_change_set ws limits cs host).0.1) [
        | inr (why, e) ↦
            let files = show (length cs.files) <> " file change(s)" in
            let line = "failed to apply " <> files <> " to session workspace: " <> why in
            (
              "Produced " <> files <> " but applying to the session workspace failed: " <> why
                  <> ".",
              host',
              with_log now base j line v,
              not_applied k e (with_log-LeftAlone now base j line v),
              beside-Leads
                  (after_applying now ws limits session j cs (apply_change_set ws limits cs host).0)
                  _ host' (rw (e, after_applying) (logged-Leads now base j h line _)),
            )
        | inl e ↦
            let l = implementation_log-Leads now base j h (
              "applied "
              <> show (length (apply_change_set ws limits cs host).0.0.applied)
              <> " file change(s) to session workspace: "
              <> join ", " (apply_change_set ws limits cs host).0.0.applied) in
            let (v', m, r) = record_changes-Leads now base j l.at cs in
            (
              applied_text now base j cs,
              host',
              v',
              applied k n e (record {
                same_task = m.same_task;
                same_plan = m.same_plan;
                same_board = m.same_board;
                same_runs = m.same_runs;
                merged = m.merged;
              }),
              beside-Leads
                  (after_applying now ws limits session j cs (apply_change_set ws limits cs host).0)
                  _ host' (rw (e, after_applying) (Leads-then (own base j) j.spec_id _ _ l r)),
            )
      ]

module _ {S : Type 0} (now : Time) (ws : Workspace S) (limits : Limits) (session : Bool)
    (base : Project) (j : Job) where
  -- In a ready project, recording the files of a runner's result succeeds. Where there are no files,
  -- or they cannot be applied in the session's workspace, the sentence says so, with the reason, and
  -- the recorded change set is as it was. Else the files are merged into the recorded change set and
  -- the sentence says that they were applied, which they were where there is a session's workspace;
  -- where there is none they are recorded only, and the sentence is the same. The task, its plan, the
  -- board and the jobs stay as they were.
  pub record_implementation_change_set-Told :
      {v : View} {w : World}
      → At (own base j) j.spec_id v w
      → (j.spec_id == "") ≡ false
      → (rr : RunnerResult) (host : S)
      → Tells now ws limits session base j
          (told_changes now base j rr)
          host
          v
          w
          (record_implementation_change_set now ws limits session j rr host)
  unfolding record_implementation_change_set note_nothing
  record_implementation_change_set-Told {v} h n rr host =
      let cs = told_changes now base j rr in
      elim (Bool-cases (is_empty cs.files)) [
        | inl e ↦
            let line =
              "no source changes produced — nothing to deliver ("
              <> nz cs.note "runner returned no files"
              <> ")" in
            (
              "No source changes were produced this step.",
              host,
              with_log now base j line v,
              nothing e (with_log-LeftAlone now base j line v),
              rw (n, record_implementation_change_set)
                  (rw e (
                    beside-Leads now ws limits session base j _ _ host
                      (logged-Leads now base j h line _))),
            )
        | inr e ↦ elim (Bool-cases session) [
          | inl k ↦
              rw (n, record_implementation_change_set)
                (rw (e, k) (session-Tells now ws limits true base j h cs host refl e))
          | inr k ↦
              let (v', m, r) = record_changes-Leads now base j h cs in
              (
                applied_text now base j cs,
                host,
                v',
                recorded_only k e m,
                rw (n, record_implementation_change_set)
                    (rw (e, k) (beside-Leads now ws limits false base j _ _ host r)),
              )
        ]
      ]
