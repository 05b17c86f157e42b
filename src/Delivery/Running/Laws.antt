-- ===== src/Delivery/Running/Laws.antt =====
-- How a delivery ends.
use opm_api.Prelude.{
  String, none, some, List, ◌≡◌, refl, subst, arith, ◌==◌, is_empty, contains, Bool-cases,
  Option-cases, Result-cases, ◌⊎◌, inl, inr, if◌then◌else◌,
}
use opm_api.Models.{Project, Task}
use opm_api.ChangeSet.Types.{ChangeSet}
use opm_api.ChangeSet.Normalize.{paths}
use opm_api.ChangeSet.Apply.{apply_change_set}
use opm_api.Delivery.{Fault, delivery_http_code}
use opm_api.Delivery.Git.{
  GitRunner, new_git_runner, Attempt, done, failed, Act, then_do, close, with_token,
}
use opm_api.Delivery.Faults.{
  IsFault, delivery_fault_status-IsFault, Reported, Reported-apply_change_set, Named,
  Names-git_commit_on_branch, Names-git_push_branch,
}
use opm_api.Delivery.Peer.{Answer, refusal, reply, peer_push_credentials, peer_create_pull_request}
use opm_api.Delivery.Texts.{deliver_commit_message}
use opm_api.Delivery.Running.{
  Hosts, DeliverySettings, Wanted, DeliveryResult, no_result, Delivered, unless_stopped,
  base_branch, delivery_branch, pull_request, open_request, push_and_open, commit_and_push, ship,
  run_delivery_from_workspace, deliver_in_workspace, run_delivery,
}

pub Answer-cases :
    {A : Type 0} (a : Answer A) → ((f : Fault) × (a ≡ refusal f)) ⊎ ((x : A) × (a ≡ reply x))
Answer-cases (refusal f) = inl (f, refl)
Answer-cases (reply x) = inr (x, refl)

-- A failure has a status that is a fault.
abbrev pub Told : Delivered → Type 0
Told (res, none) = Unit {0}
Told (res, some (status, why)) = IsFault status

unless_stopped-Told :
    {S A : Type 0} (P : A → Type 0) (res : DeliveryResult) (a : Attempt A)
    (rest : A → Act S Delivered) (c : GitRunner × S)
    → Named P a
    → ((x : A) (c : GitRunner × S) → Told (rest x c).0)
    → Told (unless_stopped res a rest c).0
unfolding unless_stopped
unless_stopped-Told P res (done x) rest c h k = k x c
unless_stopped-Told P res (failed status why) rest c h k = h

module _ {S : Type 0} (hosts : Hosts S) (settings : DeliverySettings) (p : Project) (t : Task)
    (cs : ChangeSet) (want : Wanted) where
  open_request-Told :
      (res : DeliveryResult) (staged : List String) (c : GitRunner × S)
      → Told (open_request hosts settings p t cs want res staged c).0
  unfolding open_request
  open_request-Told res staged (g, s) =
      let a = (hosts.create_pull_request (pull_request hosts settings p t cs want staged) s).0 in
      elim (Answer-cases (peer_create_pull_request a)) [
        | inl (f, e) ↦ rw (e, open_request) (delivery_fault_status-IsFault f)
        | inr (pr, e) ↦ rw (e, open_request) tt
      ]

  push_and_open-Told :
      (res : DeliveryResult) (staged : List String) (c : GitRunner × S)
      → Told (push_and_open hosts settings p t cs want res staged c).0
  unfolding push_and_open then_do
  push_and_open-Told res staged (g, s) =
      let branch = delivery_branch hosts settings p t cs want in
      let a = hosts.push_credentials s in
      elim (Answer-cases (peer_push_credentials a.0)) [
        | inl (f, e) ↦ rw (e, push_and_open) (delivery_fault_status-IsFault f)
        | inr (cred, e) ↦
            let c = with_token hosts.git cred.token (g, a.1) in
            rw (e, push_and_open)
              (unless_stopped-Told _ res _ _ _
                ((Names-git_push_branch hosts.git cred.clone_url branch).at c)
                (λ out c'. open_request-Told res staged (close hosts.git c')))
      ]

  commit_and_push-Told :
      (res : DeliveryResult) (files : List String) (c : GitRunner × S)
      → Told (commit_and_push hosts settings p t cs want res files c).0
  unfolding commit_and_push then_do
  commit_and_push-Told res files c =
      let branch = delivery_branch hosts settings p t cs want in
      unless_stopped-Told _ res _ _ _
        ((Names-git_commit_on_branch hosts.git settings.author_name settings.author_email branch
            (deliver_commit_message t cs) files).at
          c)
        (λ out.
          push_and_open-Told (record res { commit_sha = out.sha; files = out.staged }) out.staged)

  ship-Told :
      (res : DeliveryResult) (files : List String) (s : S)
      → Told (ship hosts settings p t cs want res files s).0
  unfolding ship delivery_http_code contains
  ship-Told res files s =
      elim (Bool-cases (delivery_branch hosts settings p t cs want == base_branch p want)) [
        | inl e ↦ rw (e, ship) (refl, omega arith)
        | inr e ↦ rw (e, ship) (commit_and_push-Told _ files (new_git_runner, s))
      ]

  -- A delivery from a session's workspace that fails names its fault: its status is not empty, and the
  -- code that is answered for it is an error's.
  run_delivery_from_workspace-Told :
      (s : S) → Told (run_delivery_from_workspace hosts settings p t cs want s).0
  unfolding run_delivery_from_workspace delivery_http_code contains
  run_delivery_from_workspace-Told s = elim (Bool-cases (hosts.workspace_is_stub s)) [
    | inl a ↦ rw (a, run_delivery_from_workspace) (refl, omega arith)
    | inr a ↦ elim (Bool-cases (is_empty (paths cs.files))) [
      | inl b ↦ rw (a, run_delivery_from_workspace) (rw b (refl, omega arith))
      | inr b ↦ rw (a, run_delivery_from_workspace) (rw b (ship-Told no_result (paths cs.files) s))
    ]
  ]

  deliver_in_workspace-Told : (s : S) → Told (deliver_in_workspace hosts settings p t cs want s).0
  unfolding deliver_in_workspace delivery_http_code contains
  deliver_in_workspace-Told s = elim (Bool-cases (hosts.workspace_is_stub s)) [
    | inl a ↦ rw (a, deliver_in_workspace) (refl, omega arith)
    | inr a ↦
        let applied = apply_change_set hosts.files settings.limits cs s in
        elim (Option-cases applied.0.1) [
          | inl e ↦ rw (a, deliver_in_workspace) (rw e (ship-Told _ applied.0.0.applied applied.1))
          | inr (why, e) ↦
              rw (a, deliver_in_workspace)
                (rw e (
                  named applied.0.0.status (
                    subst (λ x. Reported (applied.0.0, x)) e
                      (Reported-apply_change_set hosts.files settings.limits cs s))))
        ]
  ]
    where
      named :
          (status : String)
          → IsFault status
          → IsFault (if status == "" then "apply_failed" else status)
      named status h = rw h.0 h

  -- A delivery that fails, wherever it does, names its fault: its status is not empty, and the code
  -- that is answered for it is an error's.
  pub run_delivery-Told : (s : S) → Told (run_delivery hosts settings p t cs want s).0
  unfolding run_delivery delivery_http_code contains
  run_delivery-Told s = elim (Result-cases (hosts.prepare_job_workspace s).0) [
    | inl (u, e) ↦ rw (e, run_delivery) (deliver_in_workspace-Told _)
    | inr (why, e) ↦ rw (e, run_delivery) (refl, omega arith)
  ]
