-- ===== src/Delivery/Handling/Laws.antt =====
-- What a delivery leaves on disk, whether it succeeds or fails.
use opm_api.Prelude.{◌≤◌, String, false, none, some, ◌==◌, ◌⊎◌, ◌≡◌}
use opm_api.Models.{Time, Project, Task}
use opm_api.World.{World, Op}
use opm_api.Store.Running.{View, Leads}
use opm_api.ChangeSet.Types.{ChangeSet}
use opm_api.Delivery.Handling.{Response}

module _ (rfc3339 : Time → String) (now : Time) (p : Project) (s : String) where
  -- The task tells what was answered; a failure keeps the changes for a retry, and a success clears
  -- them. Nothing moves.
  pub record Settled (r : Response) (t : Task) (v v' : View) : Type 0 where
    pub task : Task
    pub stored : v'.spec.task ≡ some task
    pub same_status : task.status ≡ t.status
    pub told_status : task.delivery_status ≡ r.status
    pub told_error : task.delivery_error ≡ r.error
    pub same_plan : v'.spec.plan ≡ v.spec.plan
    pub same_board : v'.board ≡ v.board
    pub same_runs : v'.runs ≡ v.runs
    pub ended :
        ((r.code ≡ 200)
          × (r.status ≡ "delivered")
          × (v'.spec.changes ≡ none)
          × (task.pr_number ≡ r.result.pr_number))
        ⊎ ((400 ≤ r.code) × ((r.status == "") ≡ false) × (v'.spec.changes ≡ v.spec.changes))

  -- The action answers and settles; with `SettlesBeside`, beside what the host is left as.
  abbrev pub Settles : Task → View → World → Op Response → Type 0
  Settles t v w m = (r : Response) × (v' : View) × Settled r t v v' × Leads p s m w r v'

  abbrev pub SettlesBeside : {S : Type 0} → Task → View → World → Op (Response × S) → Type 0
  SettlesBeside {S} t v w m =
      (r : Response) × (host : S) × (v' : View) × Settled r t v v' × Leads p s m w (r, host) v'
