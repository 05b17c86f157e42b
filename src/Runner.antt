-- ===== src/Runner.antt =====
-- job_runner.go: the builtin steps of a job, which store their results and tell what they did.
pub mod Pausing
pub mod Repairing
pub mod Implementing
pub mod Skipping
pub mod Planning
pub mod Pipeline
pub mod Changelog
use opm_api.Prelude.{ℕ, String, Bool, Option, none, some, Result, ok, err, List, []}
use opm_api.Models.{
  Time, Project, ProjectStatus, idle_status, ImplementationPlan, TaskProgress, no_progress,
}
use opm_api.World.{File, World, Op, Done, pure, ignore, value_or, write}
use opm_api.World.Layout.{with_project}
use opm_api.Store.Tasks.{get_plan, get_progress}

-- The pair `(string, error)` that a step returns; `none` is nil.
pub record Outcome : Type 0 where
  pub message : String
  pub error : Option String

abbrev pub done_with : String → Op Outcome
done_with m = pure (record { message = m; error = none })

abbrev pub failed_with : String → String → Op Outcome
failed_with m e = pure (record { message = m; error = some e })

-- `if err := …; err != nil { return m, err }`, and what follows.
abbrev pub or_fail : String → Result Done → Op Outcome → Op Outcome
or_fail m (ok _) k = k
or_fail m (err e) k = failed_with m e

-- The plan that a missing file or any other error reads as.
abbrev pub no_plan : ImplementationPlan
no_plan = record {
  feature = "";
  workflow_type = "";
  services_involved = [];
  spec_file = "";
  status = "";
  plan_status = "";
  final_acceptance = [];
  phases = [];
}

module _ (now : Time) where
  abbrev pub plan_or_none : String → String → Op ImplementationPlan
  plan_or_none project_id spec_id = value_or no_plan (get_plan now project_id spec_id)

  abbrev pub progress_or_none : String → String → Op TaskProgress
  progress_or_none project_id spec_id = value_or no_progress (get_progress now project_id spec_id)

  -- The status file with a state, for a spec and a run, its error dropped.
  unfoldable pub put_status : String → String → String → String → Op Done
  put_status project_id spec_id run_id state = ignore (
      with_project now project_id λ p. write File.status p.id (λ d. record d {
        status = some (record (idle_status now) { state = state; spec = spec_id; run_id = run_id });
      }))
