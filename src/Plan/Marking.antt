-- ===== src/Plan/Marking.antt =====
-- Which subtask the loops of job_runner.go mark: the first that is pending, and no other.
use opm_api.Prelude.{
  ◌+◌, String, true, false, Option, none, some, List, [], ◌∷◌, ◌++◌, ◌≡◌, refl, ap, sym, ◌∙◌, arith,
  ◌⊎◌, inl, inr, Bool-cases, eq-cases, ◌==◌,
}
use opm_api.Models.{PlanSubtask, PlanPhase, ImplementationPlan}
use opm_api.Plan.{
  is_pending, count_subtasks, count_phases, set_first, set_first_phase, mark_next,
  first_pending_subtask_id,
}
use opm_api.Plan.Counts.{first_pending-mark_next}

-- What the inner loop finds in `xs`: nothing where nothing is pending, else the first pending subtask,
-- and the list with its status set.
data Search (to : String)
    : List PlanSubtask → Option (PlanSubtask × List PlanSubtask) → Type 0 where
  nothing : {xs : List PlanSubtask} → count_subtasks is_pending xs ≡ 0 → Search to xs none
  found :
      (earlier later : List PlanSubtask) {st : PlanSubtask} {xs ys : List PlanSubtask}
      → xs ≡ earlier ++ st ∷ later
      → ys ≡ earlier ++ record st { status = to } ∷ later
      → count_subtasks is_pending earlier ≡ 0
      → is_pending st.status ≡ true
      → Search to xs (some (st, ys))

set_first-Search : (to : String) (xs : List PlanSubtask) → Search to xs (set_first is_pending to xs)
unfolding set_first count_subtasks
set_first-Search to [] = nothing refl
set_first-Search to (x ∷ xs) = elim (Bool-cases (is_pending x.status)) [
  | inl e ↦ rw (e, set_first) (found [] xs refl refl refl e)
  | inr e ↦ rw (e, set_first) (go (set_first is_pending to xs) (set_first-Search to xs) e)
]
  where
    go :
        (r : Option (PlanSubtask × List PlanSubtask))
        → Search to xs r
        → is_pending x.status ≡ false
        → Search to (x ∷ xs) (elim r [ none ↦ none | some (st, ys) ↦ some (st, x ∷ ys) ])
    go _ (nothing c) e = nothing (ground (arith, c, e))
    go _ (found earlier later a b c d) e =
        found (x ∷ earlier) later (ap (λ r. x ∷ r) a) (ap (λ r. x ∷ r) b) (ground (arith, c, e)) d

-- The phases are others but for the status of one subtask, which was pending, and before which none
-- is.
pub record MarksFirst (to : String) (st : PlanSubtask) (xs ys : List PlanPhase) : Type 0 where
  pub before : List PlanPhase
  pub phase : PlanPhase
  pub earlier : List PlanSubtask
  pub later : List PlanSubtask
  pub after : List PlanPhase
  pub was : xs ≡ before ++ record phase { subtasks = earlier ++ st ∷ later } ∷ after
  pub now_is :
      ys
      ≡ before ++ record phase { subtasks = earlier ++ record st { status = to } ∷ later } ∷ after
  pub was_pending : (st.status ≡ "pending") ⊎ ((st.status ≡ "") ⊎ (st.status ≡ "in_progress"))
  pub first : count_phases is_pending before + count_subtasks is_pending earlier ≡ 0

is_pending-cases :
    (s : String) → is_pending s ≡ true → (s ≡ "pending") ⊎ ((s ≡ "") ⊎ (s ≡ "in_progress"))
unfolding is_pending
is_pending-cases s h = elim (eq-cases s "pending") [
  | inl e ↦ inl e
  | inr n₁ ↦ elim (eq-cases s "") [
    | inl e ↦ inr (inl e)
    | inr n₂ ↦ elim (eq-cases s "in_progress") [
      | inl e ↦ inr (inr e)
      | inr n₃ ↦ absurd (ground arith)
    ]
  ]
]

data SearchPhases (to : String)
    : List PlanPhase → Option (PlanSubtask × List PlanPhase) → Type 0 where
  nothing : {xs : List PlanPhase} → count_phases is_pending xs ≡ 0 → SearchPhases to xs none
  found :
      {st : PlanSubtask} {xs ys : List PlanPhase}
      → MarksFirst to st xs ys
      → SearchPhases to xs (some (st, ys))

set_first_phase-Search :
    (to : String) (xs : List PlanPhase) → SearchPhases to xs (set_first_phase is_pending to xs)
unfolding set_first_phase count_phases
set_first_phase-Search to [] = SearchPhases.nothing refl
set_first_phase-Search to (x ∷ xs) =
    go (set_first is_pending to x.subtasks) (set_first_phase is_pending to xs)
      (set_first-Search to x.subtasks) (set_first_phase-Search to xs)
  where
    go :
        (r : Option (PlanSubtask × List PlanSubtask)) (q : Option (PlanSubtask × List PlanPhase))
        → Search to x.subtasks r
        → SearchPhases to xs q
        → SearchPhases to (x ∷ xs) (elim r [
          | none ↦ elim q [ none ↦ none | some (st, ys) ↦ some (st, x ∷ ys) ]
          | some (st, subtasks) ↦ some (st, record x { subtasks = subtasks } ∷ xs)
        ])
    go _ _ (Search.nothing c) (SearchPhases.nothing d) = SearchPhases.nothing (ground (arith, c, d))
    go _ _ (Search.nothing c) (SearchPhases.found m) = SearchPhases.found (record {
      before = x ∷ m.before;
      phase = m.phase;
      earlier = m.earlier;
      later = m.later;
      after = m.after;
      was = ap (λ r. x ∷ r) m.was;
      now_is = ap (λ r. x ∷ r) m.now_is;
      was_pending = m.was_pending;
      first = ground (arith, c, m.first);
    })
    go _ _ (Search.found earlier later {st = st} a b c d) q = SearchPhases.found (record {
      before = [];
      phase = x;
      earlier = earlier;
      later = later;
      after = xs;
      was = ap (λ r. record x { subtasks = r } ∷ xs) a;
      now_is = ap (λ r. record x { subtasks = r } ∷ xs) b;
      was_pending = is_pending-cases st.status d;
      first = omega (arith, c);
    })

-- Where the id that the loops look for is there, marking takes the first pending subtask, reports its
-- id, and keeps all else of the plan.
pub mark_next-MarksFirst :
    (to : String) (plan : ImplementationPlan)
    → (first_pending_subtask_id plan == "") ≡ false
    → (st : PlanSubtask) × (st.id ≡ (mark_next to plan).0)
      × MarksFirst to st plan.phases (mark_next to plan).1.phases
unfolding mark_next
mark_next-MarksFirst to plan h =
    go (set_first_phase is_pending to plan.phases) (set_first_phase-Search to plan.phases)
      (ap (λ i. i == "") (sym (first_pending-mark_next to plan)) ∙ h)
  where
    marked : Option (PlanSubtask × List PlanPhase) → String × ImplementationPlan
    marked r = elim r [
      | none ↦ ("", plan)
      | some (st, phases) ↦ (st.id, record plan { phases = phases })
    ]

    go :
        (r : Option (PlanSubtask × List PlanPhase))
        → SearchPhases to plan.phases r
        → ((marked r).0 == "") ≡ false
        → (st : PlanSubtask) × (st.id ≡ (marked r).0)
          × MarksFirst to st plan.phases (marked r).1.phases
    go _ (SearchPhases.nothing c) k = absurd (ground (arith, k))
    go _ (SearchPhases.found {st = st} m) k = (st, refl, m)
