-- ===== src/Store/Running.antt =====
-- The operations on one spec of a ready project, as operations on what can be seen of it: each of
-- them succeeds, and changes the view as stated.
pub mod Moves
pub mod Mutating
pub mod Approving
pub mod Enqueuing
use opm_api.Prelude.{
  String, Bool, true, false, Option, none, some, List, [], ◌∷◌, Dict, Result, ok, err, ◌≡◌, refl,
  ap, sym, arith, ◌<>◌, ◌==◌, eq_iff, eq_refl, ◌∙◌, update, lookup, insert, lookup-insert,
  if◌then◌else◌, Option-cases, inl, inr,
}
use opm_api.Models.{
  Time, Project, Board, idle_status, ImplementationPlan, TaskProgress, no_progress, Job,
}
use opm_api.World.{
  File, SpecDir, ProjectDir, World, Op, Done, pure, ignore, value_or, attempt, try, write, ◌>>=◌,
}
use opm_api.World.Steps.{bind-run}
use opm_api.World.Layout.{dir, is_missing, with_project}
use opm_api.World.Layout.Laws.{board_or_empty}
use opm_api.World.Ready.{IsReady, IsFilled, with_dir, write-ready, with_project-ready}
use opm_api.Store.View.{stored_task, board_of}
use opm_api.Store.Tasks.{
  spec_or_empty, read, read_spec, write_spec, get_plan, put_plan, get_progress, put_progress,
  append_spec_log,
}

-- What can be seen of one spec: its directory, the board, and the jobs.
pub record View : Type 0 where
  pub spec : SpecDir
  pub board : Board
  pub runs : Dict Job

abbrev pub progress_of : SpecDir → TaskProgress
progress_of d = elim d.progress [ none ↦ no_progress | some g ↦ g ]

module _ (p : Project) (s : String) where
  -- The project is ready, and `v` is what is seen of the spec.
  pub record At (v : View) (w : World) : Type 0 where
    pub ready : IsReady p w
    pub same_spec : spec_or_empty (lookup s (dir p.id w).specs) ≡ v.spec
    pub same_board : board_of p.id w ≡ v.board
    pub same_runs : (dir p.id w).runs ≡ v.runs

  -- From `w` the action succeeds with `a`, and `v` is what is seen then.
  pub record Leads {A : Type 0} (m : Op A) (w : World) (a : A) (v : View) : Type 0 where
    pub after : World
    pub runs_to : m w ≡ (ok a, after)
    pub at : At v after

  abbrev pub view_of : {A : Type 0} {m : Op A} {w : World} {a : A} {v : View} → Leads m w a v → View
  view_of {v = v} l = v

  module _ {A : Type 0} {a : A} {v : View} {w : World} where
    pub Leads-pure : At v w → Leads (pure a) w a v
    Leads-pure h = record { after = w; runs_to = refl; at = h }

    pub Leads-ignore : (m : Op A) → Leads m w a v → Leads (ignore m) w tt v
    unfolding ignore
    Leads-ignore m h = record { after = h.after; runs_to = rw h.runs_to; at = h.at }

    pub Leads-value_or : (d : A) (m : Op A) → Leads m w a v → Leads (value_or d m) w a v
    unfolding value_or
    Leads-value_or d m h = record { after = h.after; runs_to = rw h.runs_to; at = h.at }

    pub Leads-attempt : (m : Op A) → Leads m w a v → Leads (attempt m) w (some a) v
    unfolding attempt
    Leads-attempt m h = record { after = h.after; runs_to = rw h.runs_to; at = h.at }

    pub Leads-try : (m : Op A) → Leads m w a v → Leads (try m) w (ok a) v
    unfolding try
    Leads-try m h = record { after = h.after; runs_to = rw h.runs_to; at = h.at }

  -- The rest goes on where the first action ended.
  pub Leads-then :
      {A B : Type 0} (m : Op A) (k : A → Op B) {a : A} {b : B} {v v' : View} {w : World}
      → (l : Leads m w a v) → Leads (k a) l.after b v'
      → Leads (m >>= k) w b v'
  Leads-then m k l n = record {
    after = n.after;
    runs_to = bind-run m k l.runs_to ∙ n.runs_to;
    at = n.at;
  }

  pub Leads-bind :
      {A B : Type 0} (m : Op A) (k : A → Op B) {a : A} {b : B} {v v' : View} {w : World}
      → Leads m w a v
      → ((u : World) → At v u → Leads (k a) u b v')
      → Leads (m >>= k) w b v'
  Leads-bind m k l g = Leads-then m k l (g l.after l.at)

  pub Leads-with_project :
      {A : Type 0} (now : Time) (fn : Project → Op A) {a : A} {v v' : View} {w : World}
      → At v w
      → Leads (fn p) w a v'
      → Leads (with_project now p.id fn) w a v'
  Leads-with_project now fn h n = record {
    after = n.after;
    runs_to = with_project-ready h.ready now fn ∙ n.runs_to;
    at = n.at;
  }

  -- A write whose change keeps the files that are there.
  pub Leads-write :
      (f : File) (change : ProjectDir → ProjectDir) {v v' : View} {w : World}
      → At v w
      → IsFilled (change (dir p.id w))
      → spec_or_empty (lookup s (change (dir p.id w)).specs) ≡ v'.spec
      → board_or_empty (change (dir p.id w)).board ≡ v'.board
      → (change (dir p.id w)).runs ≡ v'.runs
      → Leads (write f p.id change) w tt v'
  unfolding update
  Leads-write f change {v} {v'} {w} h l e b r = record {
    after = with_dir p.id (change (dir p.id w)) w;
    runs_to = write-ready h.ready f change;
    at = record {
      ready = record {
        known = h.ready.known;
        can_write = h.ready.can_write;
        filled = rw (eq_refl p.id) l;
      };
      same_spec = rw (eq_refl p.id) e;
      same_board = rw (eq_refl p.id) b;
      same_runs = rw (eq_refl p.id) r;
    };
  }

  pub Leads-write_spec :
      (f : File) (change : SpecDir → SpecDir) {v : View} {w : World}
      → At v w
      → Leads (write_spec f p s change) w tt (record v { spec = change v.spec })
  unfolding write_spec
  Leads-write_spec f change {v} {w} h =
      Leads-write f
        (λ d. record d { specs = insert s (change (spec_or_empty (lookup s d.specs))) d.specs }) h
        (record {
          has_board = h.ready.filled.has_board;
          has_status = h.ready.filled.has_status;
          has_roadmap = h.ready.filled.has_roadmap;
          has_ideation = h.ready.filled.has_ideation;
          has_changelog = h.ready.filled.has_changelog;
        })
        (ap spec_or_empty (
            lookup-insert s s (change (spec_or_empty (lookup s (dir p.id w).specs)))
              (dir p.id w).specs)
          ∙ rw (eq_refl s) (ap change h.same_spec))
        h.same_board h.same_runs

  module _ (now : Time) {v : View} {w : World} (h : At v w) where
    pub put_plan-Leads :
        (plan : ImplementationPlan)
        → Leads
            (put_plan now p.id s plan)
            w
            tt
            (record v { spec = record (v.spec) { plan = some plan } })
    unfolding put_plan
    put_plan-Leads plan = Leads-with_project now _ h (Leads-write_spec File.plan _ h)

    pub put_progress-Leads :
        (prog : TaskProgress)
        → Leads
            (put_progress now p.id s prog)
            w
            tt
            (record v { spec = record (v.spec) { progress = some prog } })
    unfolding put_progress
    put_progress-Leads prog = Leads-with_project now _ h (Leads-write_spec File.progress _ h)

    pub append_spec_log-Leads :
        (phase line : String)
        → Leads (append_spec_log now p.id s phase line) w tt (record v {
          spec = record (v.spec) { logs = update v.spec.logs phase (v.spec.logs phase <> line) };
        })
    unfolding append_spec_log
    append_spec_log-Leads phase line = Leads-with_project now _ h (Leads-write_spec File.log _ h)

    pub get_plan-Leads :
        {plan : ImplementationPlan} → v.spec.plan ≡ some plan → Leads (get_plan now p.id s) w plan v
    unfolding get_plan read_spec read
    get_plan-Leads e =
        Leads-with_project now _ h
          (record { after = w; runs_to = rw (h.same_spec, read) (rw e); at = h })

    pub get_progress-Leads : Leads (get_progress now p.id s) w (progress_of v.spec) v
    unfolding get_progress read_spec read
    get_progress-Leads = Leads-with_project now _ h (record {
      after = w;
      runs_to =
          rw (h.same_spec, read)
            (elim (Option-cases v.spec.progress) [ inl e ↦ rw e | inr (g, e) ↦ rw e ]);
      at = h;
    })
