-- ===== src/Delivery.antt =====
-- delivery.go: what a delivery answers, and how its faults are named.
pub mod Branch
pub mod Git
pub mod Peer
pub mod Texts
pub mod Running
pub mod Faults
pub mod Handling
use opm_api.Prelude.{
  ℕ, String, Bool, true, false, Option, none, some, List, [], ◌∷◌, ◌<>◌, ◌==◌, contains, nat_eq,
  if◌then◌else◌,
}

-- A failed call of the peer that opens pull requests: the peer's answer, or an error on the way.
pub record PeerDeliveryFault : Type 0 where
  pub http_status : ℕ
  pub status : String
  pub message : String
  pub detail : String
  pub missing : List String

pub data Fault : Type 0 where
  fault : PeerDeliveryFault → Fault
  other : String → Fault

-- `peerDeliveryFault.Error` and the text of any other error.
unfoldable pub fault_text : Fault → String
fault_text (other e) = e
fault_text (fault f) =
    let msg = if f.message == "" then "delivery call failed" else f.message in
    if f.detail == "" then msg else msg <> " (" <> f.detail <> ")"

-- The code that `deliveryHTTPCode` answers for a status.
unfoldable pub delivery_http_code : String → ℕ
unfolding contains
delivery_http_code status =
    if status == "delivered"
    then 200
    else if contains
        ("invalid_request" ∷ "not_linked_repo" ∷ "unsafe_path" ∷ "change_set_too_large" ∷ []) status
    then 400
    else if status == "task_not_found"
    then 404
    else if contains ("no_changes_produced" ∷ "push_rejected" ∷ []) status
    then 409
    else if contains ("missing_contents_permission" ∷ "missing_pull_requests_permission" ∷ [])
        status
    then 403
    else if status == "peer_not_configured"
    then 503
    else if contains ("apply_failed" ∷ "git_failed" ∷ "workspace_unavailable" ∷ "push_failed" ∷ [])
        status
    then 422
    else 502

unfoldable pub delivery_fault_status : Fault → String
delivery_fault_status (other e) = "upstream_error"
delivery_fault_status (fault f) =
    if f.status == "missing_pull_requests_permission"
    then "missing_pull_requests_permission"
    else if f.status == "missing_contents_permission"
    then "missing_contents_permission"
    else if f.status == "no_commits_between"
    then "no_changes_produced"
    else if f.status == "head_branch_not_found"
    then "push_failed"
    else if nat_eq f.http_status 403
    then "missing_pull_requests_permission"
    else "upstream_error"
