-- ===== src/Failover/Laws.antt =====
-- Which endpoints the walk calls, what it answers, and that an error does not carry the key.
use opm_api.Prelude.{
  ℕ, String, Bool, true, not, ◌&&◌, Option, none, some, List, [], ◌∷◌, ◌++◌, ◌≡◌, refl, sym, ◌∙◌,
  Result, ok, err, find, Result-cases, if◌then◌else◌, Bool-cases, inl, inr, length,
}
use opm_api.Failover.{
  Candidate, no_candidate, candidate_runnable, retryable, unsupported_attempt, failed_attempt,
  Reply, walk, call_with_failover,
}
use mathlib.Core.List.{append_assoc, append-nil}

module _ (answer : Candidate → Result String) where
  -- A caller that answers by the candidate alone and keeps a log of whom it called.
  abbrev pub logged : Candidate → List Candidate → Result String × List Candidate
  logged c log = (answer c, log ++ c ∷ [])

  -- The walk ends at this candidate: it answers, or fails for good.
  unfoldable pub decides : Candidate → Bool
  decides c = candidate_runnable c && elim (answer c) [ ok _ ↦ true | err e ↦ not (retryable e) ]

  -- The candidates that are called: the runnable ones, up to the first that decides.
  unfoldable pub tried : List Candidate → List Candidate
  tried [] = []
  tried (c ∷ cs) =
      let later = tried cs in
      if candidate_runnable c then (if decides c then c ∷ [] else c ∷ later) else later

  -- What is answered where a candidate decides, or none does.
  abbrev pub IsReplyOf : Option Candidate → Reply → Type 0
  IsReplyOf none r =
      (r.output ≡ "") × (r.candidate ≡ no_candidate) × (e : String) × (r.error ≡ some e)
  IsReplyOf (some c) r = (r.candidate ≡ c) × elim (answer c) as (λ _. Type 0) [
    | ok out ↦ (r.output ≡ out) × (r.error ≡ none)
    | err _ ↦ (r.output ≡ "") × ((e : String) × (r.error ≡ some e))
  ]

  walk-tried :
      (total : ℕ) (attempts : List String) (cs log : List Candidate)
      → (walk logged total attempts cs log).1 ≡ log ++ tried cs
  unfolding walk tried decides
  walk-tried total attempts [] log = sym (append-nil log)
  walk-tried total attempts (c ∷ cs) log = elim (Bool-cases (candidate_runnable c)) [
    | inr e ↦ rw (e, walk) (walk-tried total (attempts ++ unsupported_attempt c ∷ []) cs log)
    | inl e ↦ elim (Result-cases (answer c)) [
      | inl (out, a) ↦ rw (e, walk, a) refl
      | inr (why, a) ↦ elim (Bool-cases (retryable why)) [
        | inl r ↦
            rw (e, walk, a, r)
              (walk-tried total (attempts ++ failed_attempt c why ∷ []) cs (log ++ c ∷ [])
                ∙ append_assoc log (c ∷ []) (tried cs))
        | inr r ↦ rw (e, walk, a, r) refl
      ]
    ]
  ]

  walk-IsReplyOf :
      (total : ℕ) (attempts : List String) (cs log : List Candidate)
      → IsReplyOf (find decides cs) (walk logged total attempts cs log).0
  unfolding walk find decides
  walk-IsReplyOf total attempts [] log = (refl, refl, _, refl)
  walk-IsReplyOf total attempts (c ∷ cs) log = elim (Bool-cases (candidate_runnable c)) [
    | inr e ↦ rw (e, walk) (walk-IsReplyOf total (attempts ++ unsupported_attempt c ∷ []) cs log)
    | inl e ↦ elim (Result-cases (answer c)) [
      | inl (out, a) ↦ rw (e, walk, a) (refl, rw a (refl, refl))
      | inr (why, a) ↦ elim (Bool-cases (retryable why)) [
        | inl r ↦
            rw (e, walk, a, r)
              (walk-IsReplyOf total (attempts ++ failed_attempt c why ∷ []) cs (log ++ c ∷ []))
        | inr r ↦ rw (e, walk, a, r) (refl, rw a (refl, (_, refl)))
      ]
    ]
  ]

  -- From an empty log, the walk calls the runnable candidates up to the first that answers or fails
  -- for good, each once and in order, and no other; it answers that candidate's text or fails with
  -- it, and fails with no candidate where there is none such.
  pub call_with_failover-IsReplyOf :
      (cs : List Candidate)
      → let out = call_with_failover logged cs [] in
        (out.1 ≡ tried cs) × IsReplyOf (find decides cs) out.0
  unfolding call_with_failover find tried
  call_with_failover-IsReplyOf [] = (refl, (refl, refl, _, refl))
  call_with_failover-IsReplyOf (c ∷ cs) =
      (walk-tried (length (c ∷ cs)) [] (c ∷ cs) [], walk-IsReplyOf (length (c ∷ cs)) [] (c ∷ cs) [])
