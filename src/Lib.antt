-- ===== src/Lib.antt =====
-- OPM-API: a service that keeps projects, their boards of tasks and their jobs as JSON files, and runs
-- the jobs that plan and implement the tasks.
--
-- The parts, and the files that model them:
--
--   Models      models.go: the data. A Go `int` that counts and a time (milliseconds) are natural
--               numbers, a pointer is an `Option`, and a map that is only read at keys is a function.
--   World       The data directory of store.go as a value: `registry` is projects.json, `projects`
--               are the directories projects/<id>, and `writable` tells which kinds of files can be
--               written. A method of `Store` is an `Op`: a result, or an error, and the directory
--               after it. World/Layout is `ensureLayoutLocked` and `withProject`, World/Ready the
--               directories on which these two have nothing to do.
--   Board       The board of store.go, as a function from columns to spec ids.
--   Store       The methods of `Store`: SpecIds is `slugify` and `nextSpecID`, Tasks the operations on
--               a task and its files, Creating is `CreateTask`, Updating is `UpdateTask`,
--               Offering is `GetTaskValidActions`, Jobs the operations on jobs, Documents
--               `ListTasks` and the roadmap, ideation, changelog and logs of a project.
--               Moving, Writes, Agreement and the Laws are proofs. Running gives, for each operation,
--               what it does to the view of one spec in a ready project.
--   Plan        The loops over the phases and subtasks of a plan, from job_runner.go, store.go and
--               task_workspace.go.
--   Runner      job_runner.go: the builtin steps of a job, each with the message and the error that
--               the Go function returns. Pipeline is `runPipeline`, over an interface of its steps
--               (`PipelineSteps`), which the builtin steps fill.
--   Actions     The tables over job actions: agent_keys.go, autopilot.go, board_triggers.go,
--               task_workspace.go.
--   IssueMap    github_issue_map.go: columns and GitHub issue states.
--   Registry    The projects of store.go: `CreateProject`, `EnsureProject`, `DeleteProject`, the binding
--               of a GitHub project and the lists by organisation; Scope is tenant_scope.go. `Tenancy`
--               stands for the package open-tenant-go.
--   Autopilot   autopilot.go and board_triggers.go: the jobs that a drag, a new task, the end of
--               planning or an implementation step starts (Continuing is impl_session.go). A job
--               that is handed to `executeJob` in a goroutine is a result.
--   ChangeSet   delivery_changes.go: Normalize, Merge and Paths are pure, Recorded is `changes.json` in
--               the data directory, and Apply is `applyChangeSet` over an interface of the
--               workspace's file system (`Workspace`), which also stands for `git apply` of a text.
--   Failover    cmd/opm-runner/candidates.go: the walk over a job's endpoints, with the call of one of
--               them as a parameter.
--   Delivery    delivery.go, delivery_git.go and peer_delivery.go: from the request to deliver a task to
--               the pull request. Branch is the name of the branch, Git the runner of git with the
--               credential of the push, Peer the answers of the peer service, Texts the texts of
--               the commit and the request, Running `runDelivery` and `runDeliveryFromWorkspace`, Handling
--               `handleTaskDeliver` behind the checks of the method and the organisation. `Hosts`
--               stands for git, the workspace's file system and the peer service.
--   Results     What a runner's container answers (model_result.go), and model_apply.go: Planning and
--               Implementing store what it planned and wrote.
--   Roadmaps    The roadmap of a project: the validation of roadmap_competitor.go (`validateRoadmapJSON`),
--               Phases is `mergeRoadmapPhases`, Features what a run adds, and Discovering and Proposing
--               the operations of model_apply.go and job_runner.go on the stored roadmap. What
--               `shortID` takes from the clock is a function of the place in the loop.
--   Ideas       The ideas of a project, from model_apply.go and runner_context.go; Seeding is the builtin
--               step of job_runner.go.
--   Executing   `executeJob` of job_runner.go: Spawning is the container, Acting the builtin actions and
--               `applyRunnerResult` of model_apply.go, Running the whole, and Ending what it records
--               once the action is over. `JobHosts` stands for the workspaces and containers,
--               and for the competitor and publishing steps. Its operations act on the data directory,
--               since other requests are served while they run.
--   Tests       A small data directory, and the properties at concrete inputs on it.
--
-- The Runner calls the Store, the Store the World; the Plan is pure, and the Runner stores what it
-- computes. The Autopilot creates jobs with the Store, and the Runner's pause stops it. The Delivery
-- applies a recorded ChangeSet, and the Roadmaps read and write the Store's documents.
--
-- Choices. Operations run one after another, as the lock of `Store` has it within one method. One
-- reading of the clock (`now`) stands for all readings within one operation; `uuid` and the text of a
-- time are parameters. JSON encoding is not modelled: a file is there with its value or it is not, so
-- a file that does not parse counts as absent. The drain of the pipeline takes the number of rounds
-- that `runPipeline` computes, between 16 and 500; that is enough where at most 500 subtasks are
-- pending. The largest `int` bounds the numbers of specs. `%q` is a text between quotes, with nothing
-- escaped. `strings.ToLower` has the simple case mapping of Unicode (Prelude/Letters). A number of a patch is a natural number, with 0 for all that are not positive, since
-- `UpdateTask` treats those alike. `filepath.Clean` is modelled
-- on relative paths, which are the only ones that reach it, and `withinRoot` on a root joined with such
-- a path.
--
-- Not modelled: the HTTP handlers but for that of a delivery, peers and their tokens, GitHub calls,
-- containers, git, the model calls of cmd/opm-runner, the competitor analysis and the publishing of a
-- roadmap. Of a failed delivery's answer the detail and the missing
-- permissions are left out. The container branches of the pipeline's steps stand behind
-- `PipelineSteps`.
pub mod Prelude
pub mod Models
pub mod World
pub mod Board
pub mod Store
pub mod Plan
pub mod Runner
pub mod Actions
pub mod IssueMap
pub mod Registry
pub mod Autopilot
pub mod ChangeSet
pub mod Failover
pub mod Delivery
pub mod Results
pub mod Roadmaps
pub mod Ideas
pub mod Executing
pub mod Tests
