-- ===== src/Plan/Counts.antt =====
-- Marking the next pending subtask, as the implementation step and `mark-stuck` do it.
use opm_api.Prelude.{
  ℕ, ◌+◌, ◌*◌, ◌/◌, ◌≤◌, ◌<◌, String, Bool, true, false, Option, none, some, List, [], ◌∷◌, ◌≡◌,
  refl, arith, if◌then◌else◌, Option-cases, Bool-cases, nat_eq, subst, eq-cases, ◌⊎◌, inl, inr,
}
use native.Mathlib.Nat.{div-le_of_le-mul, div-mul-le_self}
use opm_api.Models.{PlanSubtask, PlanPhase, ImplementationPlan}
use opm_api.Plan.{
  is_pending, is_done, count_subtasks, count_phases, count_plan_subtasks, count_pending_subtasks,
  set_first, set_first_phase, mark_next, first_pending_in, first_pending, first_pending_subtask_id,
  pct,
}

abbrev bit : Bool → ℕ
bit b = if b then 1 else 0

id_of {ℓ} : {A : Type ℓ} → Option (PlanSubtask × A) → Option String
id_of none = none
id_of (some (st, _)) = some st.id

-- `done` of `total` subtasks is a percentage of at most 100.
pct-le_100 : (done total : ℕ) → done ≤ total → pct done total ≤ 100
unfolding pct
pct-le_100 done total h = elim (Bool-cases (nat_eq total 0)) [
  | inl e ↦ rw (e, pct) (omega arith)
  | inr e ↦ rw (e, pct) (div-le_of_le-mul total {m = done * 100} {n = 100} (omega arith))
]

-- Where there is a subtask, the percentage of at most all of them is 100 only if all are done.
pct_complete : (done total : ℕ) → done ≤ total → 0 < total → pct done total ≡ 100 → done ≡ total
unfolding pct
pct_complete done total h k e =
    let pos : nat_eq total 0 ≡ false = ground arith in
    all_done (done * 100 / total) (div-mul-le_self (done * 100) total) (rw (pos, pct) at e)
  where
    all_done : (q : ℕ) → q * total ≤ done * 100 → q ≡ 100 → done ≡ total
    all_done q l e = omega (arith, subst (λ x. x * total ≤ done * 100) e l)

module _ (p : String → Bool) (to : String) where
  -- What a search in one phase finds passes the test, and only its count changes.
  set_first_counts :
      (q : String → Bool) (xs : List PlanSubtask) {st : PlanSubtask} {ys : List PlanSubtask}
      → set_first p to xs ≡ some (st, ys)
      → (p st.status ≡ true)
        × (count_subtasks q ys + bit (q st.status) ≡ count_subtasks q xs + bit (q to))
  unfolding set_first count_subtasks
  set_first_counts q (x ∷ xs) {st} {ys} h = elim (Option-cases (set_first p to xs)) [
    | inl e ↦ ground arith
    | inr (r, e) ↦ ground (arith, set_first_counts q xs e)
  ]
  set_first_counts q [] h = ground arith

  set_first-none : (xs : List PlanSubtask) → set_first p to xs ≡ none → count_subtasks p xs ≡ 0
  unfolding set_first count_subtasks
  set_first-none [] h = refl
  set_first-none (x ∷ xs) h = ground (arith, set_first-none xs)

  set_first_phase_counts :
      (q : String → Bool) (xs : List PlanPhase) {st : PlanSubtask} {ys : List PlanPhase}
      → set_first_phase p to xs ≡ some (st, ys)
      → (p st.status ≡ true)
        × (count_phases q ys + bit (q st.status) ≡ count_phases q xs + bit (q to))
  unfolding set_first_phase count_phases
  set_first_phase_counts q [] h = ground arith
  set_first_phase_counts q (x ∷ xs) {st} {ys} h = elim (Option-cases (set_first p to x.subtasks)) [
    | inl e ↦ elim (Option-cases (set_first_phase p to xs)) [
      | inl e' ↦ ground arith
      | inr ((st', ys'), e') ↦ ground (arith, set_first_phase_counts q xs e')
    ]
    | inr ((st', ss'), e) ↦ ground (arith, set_first_counts q x.subtasks e)
  ]

  set_first_phase-none :
      (xs : List PlanPhase) → set_first_phase p to xs ≡ none → count_phases p xs ≡ 0
  unfolding set_first_phase count_phases
  set_first_phase-none [] h = refl
  set_first_phase-none (x ∷ xs) h =
      ground (arith, set_first-none x.subtasks, set_first_phase-none xs)

-- What `mark_next to` has done to a plan, where `plan'` is the plan after.
pub record IsMarked (to : String) (plan plan' : ImplementationPlan) : Type 0 where
  pub fewer_pending : count_pending_subtasks plan ≡ count_pending_subtasks plan' + 1
  pub same_total : (count_plan_subtasks plan').0 ≡ (count_plan_subtasks plan).0
  pub done_if : (count_plan_subtasks plan').1 ≡ (count_plan_subtasks plan).1 + bit (is_done to)

pending_not_done : (s : String) → is_pending s ≡ true → is_done s ≡ false
unfolding is_pending is_done
pending_not_done s h = elim (eq-cases s "pending") [
  | inl e ↦ rw e
  | inr n1 ↦ elim (eq-cases s "") [
    | inl e ↦ rw e
    | inr n2 ↦ elim (eq-cases s "in_progress") [ inl e ↦ rw e | inr n3 ↦ ground arith ]
  ]
]

-- If a subtask is pending, marking the next one with a status that is not a pending one leaves one
-- pending subtask less and as many subtasks, and one more done exactly if the status is a done one.
-- If none is pending, the plan stays as it is and the id is "".
pub mark_next_counts :
    (to : String) (plan : ImplementationPlan)
    → is_pending to ≡ false
    → ((count_pending_subtasks plan ≡ 0) × (mark_next to plan ≡ ("", plan)))
      ⊎ IsMarked to plan (mark_next to plan).1
unfolding mark_next count_pending_subtasks count_plan_subtasks
mark_next_counts to plan h = elim (Option-cases (set_first_phase is_pending to plan.phases)) [
  | inl e ↦ inl (set_first_phase-none is_pending to plan.phases e, rw (e, mark_next))
  | inr ((st, ys), e) ↦
      let h' = set_first_phase_counts is_pending to is_pending plan.phases e in
      let t = set_first_phase_counts is_pending to (λ _. true) plan.phases e in
      let d = set_first_phase_counts is_pending to is_done plan.phases e in
      inr (
        rw (e, mark_next)
          (record {
            fewer_pending = ground (arith, h', h);
            same_total = ground (arith, t);
            done_if = ground (arith, d, pending_not_done st.status);
          }))
]

-- The id that marking reports is the one that the pipeline looks for.
first_pending_in-set_first :
    (to : String) (xs : List PlanSubtask) → first_pending_in xs ≡ id_of (set_first is_pending to xs)
unfolding first_pending_in set_first id_of
first_pending_in-set_first to [] = refl
first_pending_in-set_first to (x ∷ xs) = ground (arith, first_pending_in-set_first to xs)

first_pending-set_first_phase :
    (to : String) (xs : List PlanPhase)
    → first_pending xs ≡ id_of (set_first_phase is_pending to xs)
unfolding first_pending set_first_phase id_of
first_pending-set_first_phase to [] = refl
first_pending-set_first_phase to (x ∷ xs) =
    ground (arith, first_pending_in-set_first to x.subtasks, first_pending-set_first_phase to xs)

-- The id that marking the next subtask reports is the one that the pipeline looks for.
pub first_pending-mark_next :
    (to : String) (plan : ImplementationPlan)
    → first_pending_subtask_id plan ≡ (mark_next to plan).0
unfolding first_pending_subtask_id mark_next id_of
first_pending-mark_next to plan = ground (arith, first_pending-set_first_phase to plan.phases)
