-- ===== src/Tests/Approvals.antt =====
-- An approval on the demo directory, whose task does not wait for one.
use opm_api.Prelude.{true, false, some, err, ◌≡◌, ◌⊎◌, refl, ◌<>◌, ◌==◌}
use opm_api.World.{World}
use opm_api.Store.Tasks.{approve_for_coding}
use opm_api.Store.Running.{View, At, Leads}
use opm_api.Store.Running.Approving.{approve_for_coding-Leads}
use opm_api.Runner.Implementing.Laws.{own}
use opm_api.Store.Jobs.{fresh_job}
use opm_api.Tests.Demo
use opm_api.Tests.Runners.{demo-At}

approve_for_coding-Leads_example :
    let t = Demo.task_in "queue" 0 in
    ((("queue" == "human_review") ≡ true)
      × (v' : View) × (v'.spec.task ≡ some (Demo.task_in "queue" 5))
      × (v'.spec.approved ≡ some true)
      × Leads
          (own Demo.project Demo.job)
          "001-a"
          (approve_for_coding 5 "p1" "001-a")
          Demo.world
          (Demo.task_in "queue" 5)
          v')
    ⊎ ((("queue" == "human_review") ≡ false)
        × (w' : World) × At (own Demo.project Demo.job) "001-a" Demo.view w'
        × (approve_for_coding 5 "p1" "001-a" Demo.world
            ≡ (err ("task must be in human_review (got \"" <> t.status <> "\")"), w')))
unfolding fresh_job
approve_for_coding-Leads_example =
    approve_for_coding-Leads (own Demo.project Demo.job) "001-a" 5 demo-At refl
