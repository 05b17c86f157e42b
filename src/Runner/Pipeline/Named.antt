-- ===== src/Runner/Pipeline/Named.antt =====
-- Plans whose subtasks have ids: the search for a pending subtask then finds one if there is one.
use opm_api.Prelude.{
  String, Bool, true, false, not, ◌&&◌, none, some, List, [], ◌∷◌, ◌≡◌, arith, ◌==◌, nat_eq,
  Option-cases, inl, inr,
}
use opm_api.Models.{PlanSubtask, PlanPhase, ImplementationPlan}
use opm_api.Plan.{
  is_pending, count_subtasks, count_phases, count_pending_subtasks, set_first, set_first_phase,
  mark_next, first_pending_in, first_pending, first_pending_subtask_id,
}

-- Every subtask has an id.
unfoldable pub all_named : List PlanSubtask → Bool
all_named [] = true
all_named (st ∷ rest) = not (st.id == "") && all_named rest

unfoldable pub is_named : List PlanPhase → Bool
is_named [] = true
is_named (ph ∷ rest) = all_named ph.subtasks && is_named rest

set_first-named :
    (p : String → Bool) (to : String) (xs : List PlanSubtask) {st : PlanSubtask}
    {ys : List PlanSubtask}
    → all_named xs ≡ true
    → set_first p to xs ≡ some (st, ys)
    → all_named ys ≡ true
unfolding set_first all_named
set_first-named p to [] h e = ground arith
set_first-named p to (x ∷ xs) {st} {ys} h e = elim (Option-cases (set_first p to xs)) [
  | inl k ↦ ground arith
  | inr ((st', ys'), k) ↦ ground (arith, set_first-named p to xs {st = st'} {ys = ys'})
]

set_first_phase-named :
    (p : String → Bool) (to : String) (xs : List PlanPhase) {st : PlanSubtask} {ys : List PlanPhase}
    → is_named xs ≡ true
    → set_first_phase p to xs ≡ some (st, ys)
    → is_named ys ≡ true
unfolding set_first_phase is_named
set_first_phase-named p to [] h e = ground arith
set_first_phase-named p to (x ∷ xs) {st} {ys} h e =
    elim (Option-cases (set_first p to x.subtasks)) [
      | inl k ↦ elim (Option-cases (set_first_phase p to xs)) [
        | inl k' ↦ ground arith
        | inr ((st', ys'), k') ↦ ground (arith, set_first_phase-named p to xs {st = st'} {ys = ys'})
      ]
      | inr ((st', ss'), k) ↦ ground (arith, set_first-named p to x.subtasks {st = st'} {ys = ss'})
    ]

-- Marking a subtask keeps the ids.
pub mark_next-named :
    (to : String) (plan : ImplementationPlan)
    → is_named plan.phases ≡ true
    → is_named (mark_next to plan).1.phases ≡ true
unfolding mark_next
mark_next-named to plan h = elim (Option-cases (set_first_phase is_pending to plan.phases)) [
  | inl e ↦ rw (e, mark_next) h
  | inr ((st, ys), e) ↦ rw (e, mark_next) (set_first_phase-named is_pending to plan.phases h e)
]

first_pending_in_lem :
    (xs : List PlanSubtask)
    → (first_pending_in xs ≡ none → count_subtasks is_pending xs ≡ 0)
      × (count_subtasks is_pending xs ≡ 0 → first_pending_in xs ≡ none)
unfolding first_pending_in count_subtasks
first_pending_in_lem [] = ground arith
first_pending_in_lem (x ∷ xs) = ground (arith, first_pending_in_lem xs)

first_pending_lem :
    (xs : List PlanPhase)
    → (first_pending xs ≡ none → count_phases is_pending xs ≡ 0)
      × (count_phases is_pending xs ≡ 0 → first_pending xs ≡ none)
unfolding first_pending count_phases
first_pending_lem [] = ground arith
first_pending_lem (x ∷ xs) = ground (arith, first_pending_lem xs, first_pending_in_lem x.subtasks)

first_pending_in-id :
    (xs : List PlanSubtask) {id : String}
    → all_named xs ≡ true
    → first_pending_in xs ≡ some id
    → (id == "") ≡ false
unfolding first_pending_in all_named
first_pending_in-id [] h e = ground arith
first_pending_in-id (x ∷ xs) {id} h e = ground (arith, first_pending_in-id xs {id = id})

first_pending-id :
    (xs : List PlanPhase) {id : String}
    → is_named xs ≡ true
    → first_pending xs ≡ some id
    → (id == "") ≡ false
unfolding first_pending is_named
first_pending-id [] h e = ground arith
first_pending-id (x ∷ xs) {id} h e =
    ground (arith, first_pending-id xs {id = id}, first_pending_in-id x.subtasks {id = id})

-- Where every subtask has an id, the search answers "" exactly if none is pending.
pub first_pending_subtask_id_lem :
    (plan : ImplementationPlan)
    → is_named plan.phases ≡ true
    → (first_pending_subtask_id plan == "") ≡ nat_eq (count_pending_subtasks plan) 0
unfolding first_pending_subtask_id count_pending_subtasks
first_pending_subtask_id_lem plan h = elim (Option-cases (first_pending plan.phases)) [
  | inl e ↦ rw (e, first_pending_subtask_id) (rw ((first_pending_lem plan.phases).0 e))
  | inr (id, e) ↦
      rw (e, first_pending_subtask_id)
        (rw (first_pending-id plan.phases {id = id} h e)
          (ground (arith, first_pending_lem plan.phases)))
]
