-- ===== src/Delivery/Handling.antt =====
-- `handleTaskDeliver` of delivery.go, behind the checks of the method and the organisation.
pub mod Laws
use opm_api.Prelude.{
  ℕ, ◌-◌, String, Bool, true, false, Option, none, some, List, [], ◌∷◌, ◌<>◌, ◌==◌, ◌||◌, not,
  Result, ok, err, is_empty, ltb, show, join, trim_space, take_chars, if◌then◌else◌, nz,
}
use Prim.Native.String.{len}
use opm_api.Models.{Time, Project, Task}
use opm_api.World.{Op, pure, ignore, try, ◌>>=◌, ◌>>◌}
use opm_api.Store.Tasks.{get_task, mutate_task, append_spec_log}
use opm_api.ChangeSet.Types.{ChangeSet}
use opm_api.ChangeSet.Recorded.{get_change_set, clear_change_set}
use opm_api.Delivery.{delivery_http_code}
use opm_api.Delivery.Running.{
  Hosts, DeliverySettings, Wanted, DeliveryResult, no_result, run_delivery,
}

-- The code and the fields of the JSON answer. `result` has what a failed delivery got to.
pub record Response : Type 0 where
  pub code : ℕ
  pub is_ok : Bool
  pub status : String
  pub error : String
  pub result : DeliveryResult

abbrev pub failure : ℕ → String → String → DeliveryResult → Response
failure code status why res = record {
  code = code;
  is_ok = false;
  status = status;
  error = why;
  result = res;
}

-- The bytes of a sha are its characters.
unfoldable pub short_sha : String → String
unfolding take_chars
short_sha sha = if ltb 12 (len sha) then take_chars 12 sha else sha

abbrev pub mark_failed : String → String → Task → Task
mark_failed status why t = record t { delivery_status = status; delivery_error = why }

abbrev pub mark_delivered : Time → DeliveryResult → Task → Task
mark_delivered now res t = record t {
  delivery_branch = res.branch;
  delivery_commit_sha = res.commit_sha;
  delivery_files = res.files;
  delivered_at = some now;
  pr_number = res.pr_number;
  pr_url = res.pr_url;
  pr_state = res.pr_state;
  delivery_status = "delivered";
  delivery_error = "";
}

module _ (rfc3339 : Time → String) (now : Time) (p : Project) (spec_id : String) where
  abbrev pub failure_line : String → String → String
  failure_line status why =
      "[" <> rfc3339 now <> "] deliver FAILED status=" <> status <> ": " <> why <> "\n"

  abbrev pub success_line : DeliveryResult → String
  success_line res =
      "["
      <> rfc3339 now
      <> "] deliver OK branch="
      <> res.branch
      <> " commit="
      <> short_sha res.commit_sha
      <> " pr=#"
      <> show res.pr_number
      <> " files="
      <> join "," res.files
      <> "\n"

  unfoldable pub record_delivery_failure : String → String → DeliveryResult → Op Response
  record_delivery_failure status why res = do
    ignore (mutate_task now p.id spec_id (mark_failed status why))
    ignore (append_spec_log now p.id spec_id "delivery" (failure_line status why))
    pure (failure (delivery_http_code status) status why res)

  -- What follows a delivery that returned no error.
  unfoldable pub record_delivery : DeliveryResult → Op Response
  record_delivery res = do
    updated ← try (mutate_task now p.id spec_id (mark_delivered now res))
    elim updated [
      | err e ↦ pure (failure 400 "error" e no_result)
      | ok _ ↦ do
        ignore (clear_change_set now p.id spec_id)
        ignore (append_spec_log now p.id spec_id "delivery" (success_line res))
        pure (record { code = 200; is_ok = true; status = "delivered"; error = ""; result = res })
    ]

  module _ {S : Type 0} (hosts : Hosts S) (settings : DeliverySettings) (configured : Bool)
      (want : Wanted) where
    abbrev beside : S → Response → Op (Response × S)
    beside s r = pure (r, s)

    unfoldable pub after_delivery : DeliveryResult × Option (String × String) → Op Response
    unfolding record_delivery_failure record_delivery
    after_delivery (res, none) = record_delivery res
    after_delivery (res, some (status, why)) = record_delivery_failure status why res

    abbrev pub no_changes_note : ChangeSet → String
    no_changes_note cs =
        let note = trim_space cs.note in
        "nothing to deliver: "
        <> (if note == ""
            then "no automation run has recorded file changes for this task yet"
            else note)

    unfoldable pub deliver_changes : Task → ChangeSet → S → Op (Response × S)
    unfolding after_delivery run_delivery
    deliver_changes t cs s =
        if is_empty cs.files
        then record_delivery_failure "no_changes_produced" (no_changes_note cs) no_result
          >>= beside s
        else (let (out, s') = run_delivery hosts settings p t cs want s in
            after_delivery out >>= beside s')

    -- The delivery of a task that is there. `configured` tells whether PEER_ORA_URL is set.
    unfoldable pub deliver_task : Task → S → Op (Response × S)
    unfolding deliver_changes
    deliver_task t s =
        if trim_space p.owner_repo == "" || trim_space p.connector_id == ""
        then record_delivery_failure "not_linked_repo"
            "this OPM project has no linked GitHub repository or connector" no_result
          >>= beside s
        else if not configured
        then record_delivery_failure "peer_not_configured"
            "PEER_ORA_URL is not configured — push credentials and pull requests live in ORA"
            no_result
          >>= beside s
        else (do
          found ← try (get_change_set now p.id spec_id)
          elim found [
            | err e ↦
                record_delivery_failure "upstream_error" ("reading the recorded change set: " <> e)
                  no_result
                >>= beside s
            | ok cs ↦ deliver_changes t cs s
          ])

    unfoldable pub handle_task_deliver : S → Op (Response × S)
    unfolding deliver_task
    handle_task_deliver s =
        if trim_space spec_id == ""
        then beside s (failure 400 "invalid_request" "specId required" no_result)
        else (do
          found ← try (get_task now p.id spec_id)
          elim found [
            | err e ↦ beside s (failure 404 "task_not_found" e no_result)
            | ok t ↦ deliver_task t s
          ])
