-- ===== src/Plan/Resetting.antt =====
-- `recover-subtask` and `skip-to-phase` on a plan.
use opm_api.Prelude.{
  ℕ, suc, ◌+◌, String, Bool, true, false, List, [], ◌∷◌, ◌≡◌, refl, All, ◌||◌, arith, if◌then◌else◌,
  ltb, nat_eq, length, length-append, Bool-cases, eq-cases, inl, inr,
}
use opm_api.Models.{PlanSubtask, PlanPhase}
use opm_api.Plan.{
  is_pending, is_done, is_stuck, is_recoverable, count_subtasks, count_phases, reset_subtasks,
  reset_phases, complete_all, phase_number, Skip, skip_phases, skip_visit, skip_phase,
}

abbrev bit : Bool → ℕ
bit b = if b then 1 else 0

-- A status that is reset is not a done one, and is either a pending or a stuck one.
recoverable_facts :
    (s : String)
    → is_recoverable s ≡ true
    → (is_done s ≡ false) × (bit (is_pending s) + bit (is_stuck s) ≡ 1)
unfolding is_recoverable is_done is_pending is_stuck
recoverable_facts s h = elim (eq-cases s "stuck") [
  | inl e ↦ rw e (refl, refl)
  | inr n1 ↦ elim (eq-cases s "failed") [
    | inl e ↦ rw e (refl, refl)
    | inr n2 ↦ elim (eq-cases s "in_progress") [
      | inl e ↦ rw e (refl, refl)
      | inr n3 ↦ absurd (ground arith)
    ]
  ]
]

recoverable_of_stuck : (s : String) → is_recoverable s ≡ false → is_stuck s ≡ false
unfolding is_recoverable is_stuck
recoverable_of_stuck s h = ground arith

completed_done : is_done "completed" ≡ true
unfolding is_done
completed_done = refl

pending_facts :
    (is_stuck "pending" ≡ false) × (is_done "pending" ≡ false) × (is_pending "pending" ≡ true)
unfolding is_done is_pending is_stuck
pending_facts = (refl, refl, refl)

-- What a reset does to the counts of the subtasks `xs`, where `ids` and `ys` are its results.
pub record IsReset (ids : ℕ) (count count' : (String → Bool) → ℕ) : Type 0 where
  pub reported : ids ≡ count is_recoverable
  pub no_stuck : count' is_stuck ≡ 0
  pub same_done : count' is_done ≡ count is_done
  pub same_total : count' (λ _. true) ≡ count (λ _. true)
  pub pending : count' is_pending ≡ count is_pending + count is_stuck

reset_subtasks-IsReset :
    (xs : List PlanSubtask)
    → IsReset
        (length (reset_subtasks xs).0)
        (λ q. count_subtasks q xs)
        (λ q. count_subtasks q (reset_subtasks xs).1)
unfolding reset_subtasks count_subtasks
reset_subtasks-IsReset [] = omega arith
reset_subtasks-IsReset (x ∷ xs) = ground (
  arith,
  reset_subtasks-IsReset xs,
  recoverable_facts x.status,
  recoverable_of_stuck x.status,
  pending_facts,
)

-- After a reset of all phases no subtask is stuck or failed, as many as before are done and as many
-- there are, the reported ids are as many as the subtasks that were reset, and what was stuck or
-- failed is pending.
pub reset_phases-IsReset :
    (xs : List PlanPhase)
    → IsReset
        (length (reset_phases xs).0)
        (λ q. count_phases q xs)
        (λ q. count_phases q (reset_phases xs).1)
unfolding reset_phases count_phases
reset_phases-IsReset [] = omega arith
reset_phases-IsReset (x ∷ xs) =
    let (ids, ys) = reset_subtasks x.subtasks in
    ground (
      arith,
      reset_subtasks-IsReset x.subtasks,
      reset_phases-IsReset xs,
      length-append (reset_subtasks x.subtasks).0 (reset_phases xs).0,
    )

-- Every subtask of a phase is done.
abbrev pub IsComplete : PlanPhase → Type 0
IsComplete ph = All (λ (st : PlanSubtask). is_done st.status ≡ true) ph.subtasks

-- Phase by phase from place `i`: those numbered below the target are complete under the same
-- number, the others are as they were.
abbrev pub SkippedTo : ℕ → ℕ → List PlanPhase → List PlanPhase → Type 0
SkippedTo target i [] [] = Unit
SkippedTo target i (x ∷ xs) (y ∷ ys) =
    (if ltb (phase_number i x) target then IsComplete y × (y.phase ≡ x.phase) else y ≡ x)
    × SkippedTo target (suc i) xs ys
SkippedTo target i _ _ = ⊥

-- A phase of the list, from place `i`, has the target's number.
abbrev pub has_phase : ℕ → ℕ → List PlanPhase → Bool
has_phase target i [] = false
has_phase target i (x ∷ xs) = nat_eq (phase_number i x) target || has_phase target (suc i) xs

complete_all-All :
    (xs : List PlanSubtask)
    → All (λ (st : PlanSubtask). is_done st.status ≡ true) (complete_all xs).1
unfolding complete_all
complete_all-All [] = tt
complete_all-All (x ∷ xs) = ground (arith, complete_all-All xs, completed_done)

complete_all_counts :
    (xs : List PlanSubtask)
    → (count_subtasks is_done (complete_all xs).1 ≡ count_subtasks is_done xs + (complete_all xs).0)
      × (count_subtasks (λ _. true) (complete_all xs).1 ≡ count_subtasks (λ _. true) xs)
unfolding complete_all count_subtasks
complete_all_counts [] = (refl, refl)
complete_all_counts (x ∷ xs) = ground (arith, complete_all_counts xs, completed_done)

skip_phase_lem :
    (target num : ℕ) (x : PlanPhase)
    → (if ltb num target
        then IsComplete (skip_phase target num x) × ((skip_phase target num x).phase ≡ x.phase)
        else skip_phase target num x ≡ x)
unfolding skip_phase
skip_phase_lem target num x = elim (Bool-cases (ltb num target)) [
  | inl e ↦ rw e (complete_all-All x.subtasks, refl)
  | inr e ↦ rw e refl
]

-- A skip completes the phases numbered below its target, and leaves the others as they were.
skip_phases-SkippedTo :
    (target i : ℕ) (xs : List PlanPhase) (s : Skip)
    → SkippedTo target i xs (skip_phases target i xs s).1
unfolding skip_phases
skip_phases-SkippedTo target i [] s = tt
skip_phases-SkippedTo target i (x ∷ xs) s = (
  skip_phase_lem target (phase_number i x) x,
  skip_phases-SkippedTo target (suc i) xs (skip_visit target (phase_number i x) x s),
)

skip_visit_found :
    (target num : ℕ) (x : PlanPhase) (s : Skip)
    → (skip_visit target num x s).found ≡ (s.found || nat_eq num target)
unfolding skip_visit
skip_visit_found target num x s = ground arith

-- The target is found exactly if a phase has its number.
skip_phases_found :
    (target i : ℕ) (xs : List PlanPhase) (s : Skip)
    → (skip_phases target i xs s).0.found ≡ (s.found || has_phase target i xs)
unfolding skip_phases
skip_phases_found target i [] s = ground arith
skip_phases_found target i (x ∷ xs) s =
    let s' = skip_visit target (phase_number i x) x s in
    ground (
      arith,
      skip_phases_found target (suc i) xs s',
      skip_visit_found target (phase_number i x) x s,
    )

skip_visit_counts :
    (target num : ℕ) (x : PlanPhase) (s : Skip)
    → (count_subtasks is_done (skip_phase target num x).subtasks + s.skipped
        ≡ count_subtasks is_done x.subtasks + (skip_visit target num x s).skipped)
      × (count_subtasks (λ _. true) (skip_phase target num x).subtasks
          ≡ count_subtasks (λ _. true) x.subtasks)
unfolding skip_visit skip_phase
skip_visit_counts target num x s = ground (arith, complete_all_counts x.subtasks)

-- The number of skipped subtasks is exactly by how many more are done, and none is added or lost.
skip_phases_counts :
    (target i : ℕ) (xs : List PlanPhase) (s : Skip)
    → let (out, ys) = skip_phases target i xs s in
      (count_phases is_done ys + s.skipped ≡ count_phases is_done xs + out.skipped)
      × (count_phases (λ _. true) ys ≡ count_phases (λ _. true) xs)
unfolding skip_phases count_phases
skip_phases_counts target i [] s = ground arith
skip_phases_counts target i (x ∷ xs) s =
    let num = phase_number i x in
    let s' = skip_visit target num x s in
    ground (arith, skip_phases_counts target (suc i) xs s', skip_visit_counts target num x s)
