-- ===== src/Tests/Endpoints.antt =====
-- The walk over endpoints, for three candidates of which the second answers.
use opm_api.Prelude.{
  String, false, List, [], ◌∷◌, ◌<>◌, truncate, ◌==◌, ◌≡◌, refl, eq_iff, arith, Result, ok, err,
  contains_text, find, if◌then◌else◌,
}
use opm_api.Failover.{
  Candidate, no_candidate, call_with_failover, candidate_name, quota_like, failed_attempt,
}
use opm_api.Failover.Laws.{logged, decides, tried, IsReplyOf, call_with_failover-IsReplyOf}
use opm_api.Failover.Redacting.{no_star, failed_attempt-hides}

abbrev endpoint : String → String → Candidate
endpoint id kind = record no_candidate { endpoint_id = id; kind = kind; api_key = "sk-1" }

abbrev endpoints : List Candidate
endpoints = endpoint "a" "api_openai" ∷ endpoint "b" "unknown" ∷ endpoint "c" "api_anthropic" ∷ []

abbrev answer : Candidate → Result String
answer c = if c.endpoint_id == "a" then err "429 for sk-1" else ok "done"

call_with_failover-IsReplyOf_example :
    let out = call_with_failover (logged answer) endpoints [] in
    (out.1 ≡ tried answer endpoints) × IsReplyOf answer (find (decides answer) endpoints) out.0
call_with_failover-IsReplyOf_example = call_with_failover-IsReplyOf answer endpoints

failed_attempt-hides_example :
    (shown : String) × (contains_text shown "sk-1" ≡ false)
    × (failed_attempt (endpoint "a" "api_openai") "429 for sk-1"
        ≡ candidate_name (endpoint "a" "api_openai")
          <> " ("
          <> "api_openai"
          <> "): "
          <> (if quota_like "429 for sk-1" then "over quota / throttled" else "failed")
          <> " — "
          <> truncate shown 200)
unfolding no_star
failed_attempt-hides_example =
    failed_attempt-hides (endpoint "a" "api_openai") "429 for sk-1"
      (λ h. absurd (ground (arith, eq_iff "sk-1" "", h))) refl
