-- ===== src/Tests/Deliveries.antt =====
-- A delivery of the demo task on a host that counts what it does.
use opm_api.Prelude.{ℕ, ◌+◌, false, none, some, refl, ok, contains_text, has_prefix, split, join}
use opm_api.ChangeSet.Apply.{after_change, apply_change_set}
use opm_api.ChangeSet.Recorded.{no_changes}
use opm_api.Delivery.Branch.{sanitize_branch_segment, delivery_branch_name}
use opm_api.Delivery.Branch.Laws.{IsSegment, sanitize_branch_segment-IsSegment}
use opm_api.Delivery.Git.{
  GitHost, git_commit_on_branch, must_run, run, commit_staged, git_push_branch, with_token,
}
use opm_api.Delivery.Peer.{reply}
use opm_api.Delivery.Running.{Hosts, DeliverySettings, Wanted, open_request, run_delivery}
use opm_api.Delivery.Running.Laws.{Told, run_delivery-Told}
use opm_api.Delivery.Running.Shipped.{IsDelivery, run_delivery-IsDelivery}
use opm_api.Tests.Demo
use opm_api.Tests.ChangeSets.{counting, limits, change_set}

abbrev git : GitHost ℕ
git = record {
  exec = λ token args n. (record { text = "done"; error = none }, n + 1);
  write_ask_pass = λ n. (ok tt, n + 1);
  remove_ask_pass = λ n. n + 1;
}

-- A host that carries out everything; its state is the number of its actions.
abbrev hosts : Hosts ℕ
hosts = record {
  git = git;
  files = counting;
  prepare_job_workspace = λ n. (ok tt, n + 1);
  workspace_is_stub = λ n. false;
  cleanup_workspace = λ n. n + 1;
  push_credentials =
      λ n. (reply (record { token = "token-123"; clone_url = "https://example/acme/demo" }), n + 1);
  create_pull_request = λ request n. (
    reply (some (record { number = 7; html_url = "url"; state = ""; already_existed = false })),
    n + 1,
  );
}

abbrev settings : DeliverySettings
settings = record {
  limits = limits;
  branch_prefix = "opm";
  author_name = "opm-api";
  author_email = "opm-api@localhost";
}

abbrev wanted : Wanted
wanted = record { branch = ""; base = ""; draft = false }

sanitize_branch_segment-IsSegment_example :
    IsSegment (sanitize_branch_segment "--Feature/Über_cool..v2")
sanitize_branch_segment-IsSegment_example =
    sanitize_branch_segment-IsSegment "--Feature/Über_cool..v2"

run_delivery-Told_example :
    Told (run_delivery hosts settings Demo.project (Demo.task_in "queue" 0) no_changes wanted 0).0
run_delivery-Told_example =
    run_delivery-Told hosts settings Demo.project (Demo.task_in "queue" 0) no_changes wanted 0

run_delivery-IsDelivery_example :
    IsDelivery hosts settings Demo.project
      (Demo.task_in "queue" 0)
      change_set
      wanted
      (hosts.prepare_job_workspace 0).1
      (run_delivery hosts settings Demo.project (Demo.task_in "queue" 0) change_set wanted 0).0.0
unfolding run_delivery apply_change_set contains_text has_prefix split join after_change
    delivery_branch_name git_commit_on_branch must_run run commit_staged git_push_branch with_token
    open_request
run_delivery-IsDelivery_example =
    run_delivery-IsDelivery hosts settings Demo.project (Demo.task_in "queue" 0) change_set wanted 0
      refl
