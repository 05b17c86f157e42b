-- ===== src/Failover.antt =====
-- cmd/opm-runner/candidates.go: the walk over the endpoints that a job may use.
pub mod Laws
pub mod Redacting
use opm_api.Prelude.{
  ℕ, String, Bool, true, false, not, Option, none, some, List, [], ◌∷◌, ◌++◌, ◌<>◌, ◌==◌, Result,
  ok, err, contains, contains_text, join, length, replace_all, show, to_lower, truncate,
  if◌then◌else◌,
}

pub record Candidate : Type 0 where
  pub index : ℕ
  pub endpoint_id : String
  pub kind : String
  pub transport : String
  pub provider : String
  pub base_url : String
  pub model : String
  pub cli_command : String
  pub cli_args : List String
  pub api_key : String

-- `candidate{}`.
abbrev pub no_candidate : Candidate
no_candidate = record {
  index = 0;
  endpoint_id = "";
  kind = "";
  transport = "";
  provider = "";
  base_url = "";
  model = "";
  cli_command = "";
  cli_args = [];
  api_key = "";
}

unfoldable pub candidate_name : Candidate → String
candidate_name c =
    if not (c.endpoint_id == "") then c.endpoint_id else "(unregistered " <> c.provider <> ")"

abbrev pub known_kinds : List String
known_kinds =
    "api_openai" ∷ "api_anthropic" ∷ "cli_cursor" ∷ "cli_claude_code" ∷ "cli_qwen_code"
    ∷ "cli_generic" ∷ []

unfoldable pub candidate_runnable : Candidate → Bool
unfolding contains
candidate_runnable c =
    if contains known_kinds c.kind
    then true
    else if c.kind == ""
    then not (c.provider == "")
    else false

unfoldable pub any_text : String → List String → Bool
any_text msg [] = false
any_text msg (x ∷ xs) = let rest = any_text msg xs in if contains_text msg x then true else rest

-- `retryable` on an error that is not nil.
unfoldable pub retryable : String → Bool
unfolding any_text
retryable e = not (
    any_text (to_lower e)
      ("context canceled" ∷ "context deadline exceeded: prompt" ∷ "invalid prompt" ∷ []))

-- `quotaLike` on an error that is not nil.
unfoldable pub quota_like : String → Bool
unfolding any_text
quota_like e = any_text (to_lower e) (
    "429" ∷ "quota" ∷ "rate limit" ∷ "rate_limit" ∷ "insufficient_quota" ∷ "too many requests"
    ∷ "billing" ∷ [])

-- The error without the candidate's key.
unfoldable pub redact : Candidate → String → String
redact c e = replace_all e c.api_key "***"

unfoldable pub unsupported_attempt : Candidate → String
unfolding candidate_name
unsupported_attempt c = candidate_name c <> ": unsupported kind \"" <> c.kind <> "\" by this runner"

unfoldable pub failed_attempt : Candidate → String → String
unfolding candidate_name quota_like redact
failed_attempt c e =
    let why = if quota_like e then "over quota / throttled" else "failed" in
    candidate_name c <> " (" <> c.kind <> "): " <> why <> " — " <> truncate (redact c e) 200

-- The three results: the text, the candidate, and the error or nil.
pub record Reply : Type 0 where
  pub output : String
  pub candidate : Candidate
  pub error : Option String

-- The call of one candidate may change a state, such as what has been spent.
module _ {S : Type 0} (call : Candidate → S → Result String × S) where
  -- The loop. `total` is the number of all candidates and `attempts` what has failed so far.
  unfoldable pub walk : ℕ → List String → List Candidate → S → Reply × S
  unfolding candidate_runnable retryable unsupported_attempt failed_attempt
  walk total attempts [] s = (
    record {
      output = "";
      candidate = no_candidate;
      error = some ("all " <> show total <> " model endpoints failed:\n  " <> join "\n  " attempts);
    },
    s,
  )
  walk total attempts (c ∷ cs) s = elim (candidate_runnable c) [
    | false ↦ walk total (attempts ++ unsupported_attempt c ∷ []) cs s
    | true ↦
        let (r, s') = call c s in
        elim r [
          | ok out ↦ (record { output = out; candidate = c; error = none }, s')
          | err e ↦
              let attempts' = attempts ++ failed_attempt c e ∷ [] in
              elim (retryable e) [
                | false ↦ (
                  record {
                    output = "";
                    candidate = c;
                    error =
                        some
                          ("model call failed and is not retryable:\n  " <> join "\n  " attempts');
                  },
                  s',
                )
                | true ↦ walk total attempts' cs s'
              ]
        ]
  ]

  unfoldable pub call_with_failover : List Candidate → S → Reply × S
  unfolding walk
  call_with_failover [] s = (
    record {
      output = "";
      candidate = no_candidate;
      error = some "no model candidate available (no credential resolved)";
    },
    s,
  )
  call_with_failover (c ∷ cs) s = walk (length (c ∷ cs)) [] (c ∷ cs) s
