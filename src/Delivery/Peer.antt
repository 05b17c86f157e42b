-- ===== src/Delivery/Peer.antt =====
-- peer_delivery.go: what the peer service answers to the two calls of a delivery.
use opm_api.Prelude.{ℕ, String, Bool, Option, none, some, ◌==◌, ◌||◌, nat_eq, if◌then◌else◌}
use opm_api.Delivery.{Fault}

pub record PushCredential : Type 0 where
  pub token : String
  pub clone_url : String

pub record PullRequestMeta : Type 0 where
  pub number : ℕ
  pub html_url : String
  pub state : String
  pub already_existed : Bool

pub record PullRequest : Type 0 where
  pub title : String
  pub body : String
  pub head : String
  pub base : String
  pub draft : Bool

-- What a call of the peer answers, when it answers with JSON.
pub data Answer (A : Type 0) : Type 0 where
  refusal : Fault → Answer A
  reply : A → Answer A

unfoldable pub peer_push_credentials : Answer PushCredential → Answer PushCredential
peer_push_credentials (refusal f) = refusal f
peer_push_credentials (reply c) =
    if c.token == "" || c.clone_url == ""
    then refusal (Fault.other "ora returned incomplete push credentials")
    else reply c

unfoldable pub peer_create_pull_request : Answer (Option PullRequestMeta) → Answer PullRequestMeta
peer_create_pull_request (refusal f) = refusal f
peer_create_pull_request (reply none) =
    refusal (Fault.other "ora response did not contain a pull_request object")
peer_create_pull_request (reply (some m)) =
    if nat_eq m.number 0
    then refusal (Fault.other "ora response contained no pull request number")
    else reply (record m { state = if m.state == "" then "open" else m.state })
