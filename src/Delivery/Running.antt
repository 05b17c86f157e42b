-- ===== src/Delivery/Running.antt =====
-- `runDelivery` and `runDeliveryFromWorkspace` of delivery.go, over the host and the peer.
pub mod Laws
pub mod Commands
pub mod Shipped
use opm_api.Prelude.{
  ℕ, String, Bool, true, false, Option, none, some, List, [], ◌∷◌, ◌<>◌, ◌==◌, ◌||◌, Result, ok,
  err, is_empty, ltb, nat_eq, show, nz, trim_space, truncate_runes, if◌then◌else◌,
}
use opm_api.Models.{Project, Task}
use opm_api.World.{Done}
use opm_api.ChangeSet.Types.{ChangeSet}
use opm_api.ChangeSet.Normalize.{paths}
use opm_api.ChangeSet.Apply.{Limits, ApplyOutcome, Workspace, apply_change_set}
use opm_api.Delivery.{Fault, fault_text, delivery_fault_status}
use opm_api.Delivery.Branch.{delivery_branch_name}
use opm_api.Delivery.Git.{
  GitHost, GitRunner, new_git_runner, Attempt, done, failed, CommitOutcome, Act, answer, then_do,
  close, with_token, git_commit_on_branch, git_push_branch,
}
use opm_api.Delivery.Peer.{
  PushCredential, PullRequestMeta, PullRequest, Answer, refusal, reply, peer_push_credentials,
  peer_create_pull_request,
}
use opm_api.Delivery.Texts.{deliver_commit_message, deliver_pull_request_body, request_title}

-- What a delivery uses: git and the file system in the workspace, its preparation and removal, and the
-- two calls of the peer. An answer without a `pull_request` object is `none`.
pub record Hosts (S : Type 0) : Type 0 where
  pub git : GitHost S
  pub files : Workspace S
  pub prepare_job_workspace : S → Result Done × S
  pub workspace_is_stub : S → Bool
  pub cleanup_workspace : S → S
  pub push_credentials : S → Answer PushCredential × S
  pub create_pull_request : PullRequest → S → Answer (Option PullRequestMeta) × S

-- What is read from the environment.
pub record DeliverySettings : Type 0 where
  pub limits : Limits
  pub branch_prefix : String
  pub author_name : String
  pub author_email : String

-- The body of the request.
pub record Wanted : Type 0 where
  pub branch : String
  pub base : String
  pub draft : Bool

pub record DeliveryResult : Type 0 where
  pub status : String
  pub branch : String
  pub commit_sha : String
  pub pr_number : ℕ
  pub pr_url : String
  pub pr_state : String
  pub files : List String
  pub skipped : List String
  pub already_existed : Bool
  pub note : String

abbrev pub no_result : DeliveryResult
no_result = record {
  status = "";
  branch = "";
  commit_sha = "";
  pr_number = 0;
  pr_url = "";
  pr_state = "";
  files = [];
  skipped = [];
  already_existed = false;
  note = "";
}

-- The partial result, and the status and the error of a failure.
abbrev pub Delivered : Type 0
Delivered = DeliveryResult × Option (String × String)

abbrev pub stop : DeliveryResult → String → String → Delivered
stop res status why = (res, some (status, why))

-- `if err != nil { return res, status, err }`.
unfoldable pub unless_stopped :
    {S A : Type 0} → DeliveryResult → Attempt A → (A → Act S Delivered) → Act S Delivered
unless_stopped res (failed status why) rest c = (stop res status why, c)
unless_stopped res (done a) rest c = rest a c

unfoldable pub base_branch : Project → Wanted → String
unfolding trim_space nz
base_branch p want =
    let base = trim_space want.base in if base == "" then nz p.default_branch "main" else base

module _ {S : Type 0} (hosts : Hosts S) (settings : DeliverySettings) (p : Project) (t : Task)
    (cs : ChangeSet) (want : Wanted) where
  abbrev pub delivery_branch : String
  delivery_branch = delivery_branch_name settings.branch_prefix t.spec_id want.branch

  abbrev pub pull_request : List String → PullRequest
  pull_request files = record {
    title = request_title t;
    body = deliver_pull_request_body t cs files;
    head = delivery_branch;
    base = base_branch p want;
    draft = want.draft;
  }

  -- The pull request, once the branch is pushed and the credential dropped.
  unfoldable pub open_request : DeliveryResult → List String → Act S Delivered
  unfolding peer_create_pull_request
  open_request res staged (g, s) =
      let (a, s') = hosts.create_pull_request (pull_request staged) s in
      (
        elim (peer_create_pull_request a) [
          | refusal f ↦
              stop res (delivery_fault_status f) ("opening the pull request: " <> fault_text f)
          | reply pr ↦ (
            record res {
              pr_number = pr.number;
              pr_url = pr.html_url;
              pr_state = pr.state;
              already_existed = pr.already_existed;
              status = "delivered";
            },
            none,
          )
        ],
        (g, s'),
      )

  -- The push of the commit, with a credential that is asked for it alone.
  unfoldable pub push_and_open : DeliveryResult → List String → Act S Delivered
  unfolding peer_push_credentials then_do unless_stopped
  push_and_open res staged (g, s) =
      let (a, s₁) = hosts.push_credentials s in
      elim (peer_push_credentials a) [
        | refusal f ↦
            (stop res (delivery_fault_status f) ("push credentials: " <> fault_text f), (g, s₁))
        | reply cred ↦
            then_do (git_push_branch hosts.git cred.clone_url delivery_branch)
              (λ pushed.
                unless_stopped res pushed λ _ c. open_request res staged (close hosts.git c))
              (with_token hosts.git cred.token (g, s₁))
      ]

  -- The commit of the paths, the push and the pull request, in a workspace that holds the changes.
  unfoldable pub commit_and_push : DeliveryResult → List String → Act S Delivered
  unfolding push_and_open deliver_commit_message then_do unless_stopped
  commit_and_push res files =
      then_do
        (git_commit_on_branch hosts.git settings.author_name settings.author_email delivery_branch
          (deliver_commit_message t cs) files)
        λ commit.
          unless_stopped res commit λ out.
            push_and_open (record res { commit_sha = out.sha; files = out.staged }) out.staged

  -- What both deliveries do once the files are in the workspace; the runner is closed at the end.
  unfoldable pub ship : DeliveryResult → List String → S → Delivered × S
  unfolding commit_and_push base_branch
  ship res files s =
      if delivery_branch == base_branch p want
      then (
        stop res "invalid_request"
            ("the delivery branch would equal the base branch (" <> base_branch p want <> ")"),
        s,
      )
      else (let (out, c) =
            commit_and_push (record res { branch = delivery_branch }) files (new_git_runner, s) in
          (out, (close hosts.git c).1))

  unfoldable pub run_delivery_from_workspace : S → Delivered × S
  unfolding ship
  run_delivery_from_workspace s =
      if hosts.workspace_is_stub s
      then (stop no_result "workspace_unavailable" "the session workspace is not a git clone", s)
      else if is_empty (paths cs.files)
      then (stop no_result "no_changes_produced" "nothing to deliver: no paths in change set", s)
      else ship no_result (paths cs.files) s

  -- The delivery in a prepared workspace.
  unfoldable pub deliver_in_workspace : S → Delivered × S
  unfolding ship
  deliver_in_workspace s =
      if hosts.workspace_is_stub s
      then (
        stop no_result "workspace_unavailable" (
            "the workspace is not a git clone — ORA clone credentials are unavailable for "
            <> p.owner_repo),
        s,
      )
      else (let ((applied, e), s') = apply_change_set hosts.files settings.limits cs s in
          let res = record no_result { files = applied.applied; skipped = applied.skipped } in
          elim e [
            | some why ↦
                (stop res (if applied.status == "" then "apply_failed" else applied.status) why, s')
            | none ↦ ship res applied.applied s'
          ])

  -- The workspace is removed whatever happens.
  unfoldable pub run_delivery : S → Delivered × S
  unfolding deliver_in_workspace
  run_delivery s =
      let (ready, s₁) = hosts.prepare_job_workspace s in
      elim ready [
        | err e ↦ (
          stop no_result "workspace_unavailable" ("preparing the delivery workspace: " <> e),
          hosts.cleanup_workspace s₁,
        )
        | ok _ ↦ let (out, s₂) = deliver_in_workspace s₁ in (out, hosts.cleanup_workspace s₂)
      ]
