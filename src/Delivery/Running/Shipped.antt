-- ===== src/Delivery/Running/Shipped.antt =====
-- What a delivery that succeeds has done.
use opm_api.Prelude.{
  ◌<◌, String, false, Option, none, some, List, [], ◌∷◌, ◌<>◌, trim_space, if◌then◌else◌, ◌≡◌, refl,
  sym, ap, subst, ◌∙◌, arith, ◌==◌, length, nat_eq, Bool-cases, Option-cases, Result-cases, inl,
  inr,
}
use opm_api.Models.{Project, Task}
use opm_api.ChangeSet.Types.{ChangeSet}
use opm_api.ChangeSet.Apply.{apply_change_set}
use opm_api.ChangeSet.Apply.Reported.{apply_change_set-reported}
use opm_api.Delivery.Git.{
  GitRunner, new_git_runner, Attempt, done, failed, Act, then_do, close, with_token,
  git_commit_on_branch, git_push_branch,
}
use opm_api.Delivery.Peer.{
  PushCredential, PullRequestMeta, Answer, refusal, reply, peer_push_credentials,
  peer_create_pull_request,
}
use opm_api.Delivery.Running.Commands.{
  Runs, Commits, git_commit_on_branch-Commits, git_push_branch-Runs,
}
use opm_api.Delivery.Texts.{deliver_commit_message}
use opm_api.Delivery.Running.{
  Hosts, DeliverySettings, Wanted, DeliveryResult, no_result, Delivered, unless_stopped,
  base_branch, delivery_branch, pull_request, open_request, push_and_open, commit_and_push, ship,
  deliver_in_workspace, run_delivery,
}
use opm_api.Delivery.Faults.{Named, Names-git_commit_on_branch}
use opm_api.Delivery.Running.Laws.{Answer-cases}

-- The rest is reached only by a value.
unless_stopped-ok :
    {S A : Type 0} (res : DeliveryResult) (a : Attempt A) (rest : A → Act S Delivered)
    (c : GitRunner × S)
    → (unless_stopped res a rest c).0.1 ≡ none
    → (x : A) × (a ≡ done x) × (unless_stopped res a rest c ≡ rest x c)
unfolding unless_stopped
unless_stopped-ok res (done x) rest c h = (x, refl, refl)
unless_stopped-ok res (failed status why) rest c h = absurd (ground (arith, h))

peer_create-numbered :
    (a : Answer (Option PullRequestMeta)) {pr : PullRequestMeta}
    → peer_create_pull_request a ≡ reply pr
    → (m : PullRequestMeta) × (a ≡ reply (some m)) × (m.number ≡ pr.number) × (0 < pr.number)
unfolding peer_create_pull_request
peer_create-numbered (refusal f) h = absurd (ground (arith, h))
peer_create-numbered (reply none) h = absurd (ground (arith, h))
peer_create-numbered (reply (some m)) h = elim (Bool-cases (nat_eq m.number 0)) [
  | inl e ↦ absurd (ground (arith, h, e))
  | inr e ↦ (m, refl, ground (arith, h, e), ground (arith, h, e))
]

module _ {S : Type 0} (hosts : Hosts S) (settings : DeliverySettings) (p : Project) (t : Task)
    (cs : ChangeSet) (want : Wanted) where
  abbrev branch : String
  branch = delivery_branch hosts settings p t cs want

  -- The peer opened a request, or knew of one, for these files.
  pub record Opened (res : DeliveryResult) (files : List String) (s : S) (out : DeliveryResult)
      : Type 0 where
    pub meta : PullRequestMeta
    pub answered :
        (hosts.create_pull_request (pull_request hosts settings p t cs want files) s).0
        ≡ reply (some meta)
    pub numbered : 0 < meta.number
    pub same_number : out.pr_number ≡ meta.number
    pub is_delivered : out.status ≡ "delivered"
    pub same_branch : out.branch ≡ res.branch
    pub same_commit : out.commit_sha ≡ res.commit_sha
    pub same_files : out.files ≡ res.files

  open_request-Opened :
      (res : DeliveryResult) (files : List String) (c : GitRunner × S)
      → (open_request hosts settings p t cs want res files c).0.1 ≡ none
      → Opened res files c.1 (open_request hosts settings p t cs want res files c).0.0
  unfolding open_request
  open_request-Opened res files (g, s) h =
      let a = (hosts.create_pull_request (pull_request hosts settings p t cs want files) s).0 in
      elim (Answer-cases (peer_create_pull_request a)) [
        | inl (f, e) ↦ absurd (ground (arith, rw (e, open_request) at h))
        | inr (pr, e) ↦
            let (m, answered, number, pos) = peer_create-numbered a e in
            rw (e, open_request)
              (record {
                meta = m;
                answered = answered;
                numbered = omega (arith, number, pos);
                same_number = sym number;
                is_delivered = refl;
                same_branch = refl;
                same_commit = refl;
                same_files = refl;
              })
      ]

  -- The branch was pushed from the state `c` with a credential that was asked for then, and the
  -- request opened after it, when the helper script of the credential was removed.
  pub record Pushed (res : DeliveryResult) (files : List String) (c : GitRunner × S)
      (out : DeliveryResult) : Type 0 where
    pub credential : PushCredential
    pub printed : String
    pub after : GitRunner × S
    pub pushed :
        Runs hosts.git
          ("push"
            ∷ credential.clone_url
            ∷ ("refs/heads/" <> branch <> ":refs/heads/" <> branch)
            ∷ [])
          (record (c.0) { token = trim_space credential.token }, (hosts.push_credentials c.1).1)
          printed
          after
    pub opened :
        Opened res files
          (if after.0.ask_pass then hosts.git.remove_ask_pass after.1 else after.1)
          out

  push_and_open-Pushed :
      (res : DeliveryResult) (files : List String) (c : GitRunner × S)
      → (push_and_open hosts settings p t cs want res files c).0.1 ≡ none
      → Pushed res files c (push_and_open hosts settings p t cs want res files c).0.0
  unfolding push_and_open then_do with_token close
  push_and_open-Pushed res files (g, s) h =
      let a = hosts.push_credentials s in
      elim (Answer-cases (peer_push_credentials a.0)) [
        | inl (f, e) ↦ absurd (ground (arith, rw (e, push_and_open) at h))
        | inr (cred, e) ↦
            let c = with_token hosts.git cred.token (g, a.1) in
            let push = git_push_branch hosts.git cred.clone_url branch c in
            let h' = rw (e, push_and_open) at h in
            let (text, k, same) = unless_stopped-ok res push.0 _ push.1 h' in
            rw (e, push_and_open)
              (record {
                credential = cred;
                printed = text;
                after = push.1;
                pushed = git_push_branch-Runs hosts.git cred.clone_url branch c k;
                opened =
                    subst (λ x. Opened res files (close hosts.git push.1).1 x.0.0) (sym same)
                      (open_request-Opened res files (close hosts.git push.1)
                        (ap (λ x. x.0.1) (sym same) ∙ h'));
              })
      ]

  -- The branch is not the base; the files were committed there from the state `c`, and it is pushed
  -- from the state that the commit leaves.
  pub record Shipped (files : List String) (c : GitRunner × S) (out : DeliveryResult) : Type 0 where
    pub not_base : (branch == base_branch p want) ≡ false
    pub on_branch : out.branch ≡ branch
    pub sha : String
    pub on_commit : GitRunner × S
    pub committed :
        Commits hosts.git settings.author_name settings.author_email branch
          (deliver_commit_message t cs)
          files
          c
          sha
          on_commit
    pub same_sha : out.commit_sha ≡ sha
    pub result : DeliveryResult
    pub pushed : Pushed result files on_commit out
    pub same_files : out.files ≡ files

  commit_and_push-Shipped :
      (res : DeliveryResult) (files : List String) (c : GitRunner × S)
      → res.branch ≡ branch
      → (branch == base_branch p want) ≡ false
      → (commit_and_push hosts settings p t cs want res files c).0.1 ≡ none
      → Shipped files c (commit_and_push hosts settings p t cs want res files c).0.0
  unfolding commit_and_push then_do
  commit_and_push-Shipped res files c b n h =
      let message = deliver_commit_message t cs in
      let commit =
        git_commit_on_branch hosts.git settings.author_name settings.author_email branch message
          files c in
      let (x, k, same) = unless_stopped-ok res commit.0 _ commit.1 h in
      let staged : x.staged ≡ files = subst (Named λ o. o.staged ≡ files) k (
        (Names-git_commit_on_branch hosts.git settings.author_name settings.author_email branch
            message files).at
          c) in
      let res' = record res { commit_sha = x.sha; files = x.staged } in
      let done_so = push_and_open-Pushed res' x.staged commit.1 (ap (λ y. y.0.1) (sym same) ∙ h) in
      subst (λ y. Shipped files c y.0.0) (sym same)
        (record {
          not_base = n;
          on_branch = done_so.opened.same_branch ∙ b;
          sha = x.sha;
          on_commit = commit.1;
          committed =
              git_commit_on_branch-Commits hosts.git settings.author_name settings.author_email
                branch message files c k;
          same_sha = done_so.opened.same_commit;
          result = res';
          pushed =
              subst
                (λ fs.
                  Pushed res' fs commit.1
                    (push_and_open hosts settings p t cs want res' x.staged commit.1).0.0)
                staged done_so;
          same_files = done_so.opened.same_files ∙ staged;
        })

  ship-Shipped :
      (res : DeliveryResult) (files : List String) (s : S)
      → (ship hosts settings p t cs want res files s).0.1 ≡ none
      → Shipped files
          (record { token = ""; ask_pass = false }, s)
          (ship hosts settings p t cs want res files s).0.0
  unfolding ship
  ship-Shipped res files s h = elim (Bool-cases (branch == base_branch p want)) [
    | inl e ↦ absurd (ground (arith, rw (e, ship) at h))
    | inr e ↦
        rw (e, ship)
          (commit_and_push-Shipped (record res { branch = branch }) files (new_git_runner, s) refl e
            (rw (e, ship) at h))
  ]

  -- The workspace as it was prepared, and what was delivered from it.
  pub record IsDelivery (s₁ : S) (out : DeliveryResult) : Type 0 where
    pub applied : (apply_change_set hosts.files settings.limits cs s₁).0.0.applied ≡ out.files
    pub some_files : 0 < length out.files
    pub shipped :
        Shipped out.files
          (
            record { token = ""; ask_pass = false },
            (apply_change_set hosts.files settings.limits cs s₁).1,
          )
          out

  deliver_in_workspace-IsDelivery :
      (s : S)
      → (deliver_in_workspace hosts settings p t cs want s).0.1 ≡ none
      → IsDelivery s (deliver_in_workspace hosts settings p t cs want s).0.0
  unfolding deliver_in_workspace
  deliver_in_workspace-IsDelivery s h = elim (Bool-cases (hosts.workspace_is_stub s)) [
    | inl a ↦ absurd (ground (arith, rw (a, deliver_in_workspace) at h))
    | inr a ↦
        let applied = apply_change_set hosts.files settings.limits cs s in
        let h₁ = rw (a, deliver_in_workspace) at h in
        elim (Option-cases applied.0.1) [
          | inr (why, e) ↦ absurd (ground (arith, rw e at h₁))
          | inl e ↦
              let res = record no_result {
                files = applied.0.0.applied;
                skipped = applied.0.0.skipped;
              } in
              let sent = ship-Shipped res applied.0.0.applied applied.1 (rw e at h₁) in
              let out = (ship hosts settings p t cs want res applied.0.0.applied applied.1).0.0 in
              let counted = apply_change_set-reported hosts.files settings.limits cs s e in
              rw (a, deliver_in_workspace)
                (rw e (record {
                  applied = sym sent.same_files;
                  some_files = subst (λ fs. 0 < length fs) (sym sent.same_files) counted.1;
                  shipped =
                      subst
                        (λ fs. Shipped fs (record { token = ""; ask_pass = false }, applied.1) out)
                        (sym sent.same_files) sent;
                }))
        ]
  ]

  -- A delivery that returns no error applied at least one path of the change set in the workspace that
  -- was prepared for it. From there, with no credential, it created a branch that is not the base,
  -- staged exactly the applied paths and committed them, which is the commit that it returns. Then it
  -- asked for a credential and pushed that branch to the one of the same name, and only then, with the
  -- helper script of the credential removed, had the peer open a pull request, whose number it returns.
  pub run_delivery-IsDelivery :
      (s : S)
      → (run_delivery hosts settings p t cs want s).0.1 ≡ none
      → IsDelivery (hosts.prepare_job_workspace s).1 (run_delivery hosts settings p t cs want s).0.0
  unfolding run_delivery
  run_delivery-IsDelivery s h =
      let ready = hosts.prepare_job_workspace s in
      elim (Result-cases ready.0) [
        | inr (why, e) ↦ absurd (ground (arith, rw (e, run_delivery) at h))
        | inl (u, e) ↦
            rw (e, run_delivery)
              (deliver_in_workspace-IsDelivery ready.1 (rw (e, run_delivery) at h))
      ]
