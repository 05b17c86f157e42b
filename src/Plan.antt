-- ===== src/Plan.antt =====
-- The plan of a task: the loops over phases and subtasks of job_runner.go, store.go and
-- task_workspace.go.
pub mod Counts
pub mod Marking
pub mod Resetting
use opm_api.Prelude.{
  ℕ, zero, suc, ◌+◌, ◌*◌, ◌/◌, String, Bool, true, false, not, ◌&&◌, ◌||◌, Option, none, some, List,
  [], ◌∷◌, ◌++◌, ◌==◌, ltb, nat_eq, if◌then◌else◌,
}
use opm_api.Models.{PlanSubtask, PlanPhase, ImplementationPlan}

-- The test of the loops that look for work left to do.
unfoldable pub is_pending : String → Bool
is_pending s = s == "pending" || s == "" || s == "in_progress"

-- The test by which subtasks count as done.
unfoldable pub is_done : String → Bool
is_done s = s == "completed" || s == "done"

unfoldable pub is_stuck : String → Bool
is_stuck s = s == "stuck" || s == "failed"

-- What `recover-subtask` resets.
unfoldable pub is_recoverable : String → Bool
is_recoverable s = s == "stuck" || s == "failed" || s == "in_progress"

-- The inner and the outer loop of a count of the subtasks that pass a test.
unfoldable pub count_subtasks : (String → Bool) → List PlanSubtask → ℕ
count_subtasks p [] = 0
count_subtasks p (st ∷ rest) = (if p st.status then 1 else 0) + count_subtasks p rest

unfoldable pub count_phases : (String → Bool) → List PlanPhase → ℕ
unfolding count_subtasks
count_phases p [] = 0
count_phases p (ph ∷ rest) = count_subtasks p ph.subtasks + count_phases p rest

-- `countPlanSubtasks`: the subtasks, and those done.
unfoldable pub count_plan_subtasks : ImplementationPlan → ℕ × ℕ
unfolding count_phases is_done
count_plan_subtasks plan = (count_phases (λ _. true) plan.phases, count_phases is_done plan.phases)

unfoldable pub count_pending_subtasks : ImplementationPlan → ℕ
unfolding count_phases is_pending
count_pending_subtasks plan = count_phases is_pending plan.phases

unfoldable pub count_stuck_or_failed : ImplementationPlan → ℕ
unfolding count_phases is_stuck
count_stuck_or_failed plan = count_phases is_stuck plan.phases

-- `pct`.
unfoldable pub pct : ℕ → ℕ → ℕ
pct done total = if nat_eq total 0 then 0 else done * 100 / total

-- The search went on behind `x`.
abbrev behind {ℓ} : {A : Type ℓ} → A → Option (PlanSubtask × List A) → Option (PlanSubtask × List A)
behind x none = none
behind x (some (found, rest)) = some (found, x ∷ rest)

-- The first subtask that passes a test, and the list with its status set.
unfoldable pub set_first :
    (String → Bool) → String → List PlanSubtask → Option (PlanSubtask × List PlanSubtask)
set_first p to [] = none
set_first p to (st ∷ rest) =
    let later = behind st (set_first p to rest) in
    if p st.status then some (st, record st { status = to } ∷ rest) else later

unfoldable pub set_first_phase :
    (String → Bool) → String → List PlanPhase → Option (PlanSubtask × List PlanPhase)
unfolding set_first
set_first_phase p to [] = none
set_first_phase p to (ph ∷ rest) =
    let later = behind ph (set_first_phase p to rest) in
    elim (set_first p to ph.subtasks) [
      | none ↦ later
      | some (found, subtasks) ↦ some (found, record ph { subtasks = subtasks } ∷ rest)
    ]

-- The loop with `goto`: the first pending subtask gets a status, and its id is the result, "" if
-- there is none.
unfoldable pub mark_next : String → ImplementationPlan → String × ImplementationPlan
unfolding set_first_phase is_pending
mark_next to plan = elim (set_first_phase is_pending to plan.phases) [
  | none ↦ ("", plan)
  | some (found, phases) ↦ (found.id, record plan { phases = phases })
]

-- `firstPendingSubtaskID`.
unfoldable pub first_pending_in : List PlanSubtask → Option String
unfolding is_pending
first_pending_in [] = none
first_pending_in (st ∷ rest) = if is_pending st.status then some st.id else first_pending_in rest

unfoldable pub first_pending : List PlanPhase → Option String
unfolding first_pending_in
first_pending [] = none
first_pending (ph ∷ rest) =
    let later = first_pending rest in
    elim (first_pending_in ph.subtasks) [ none ↦ later | some id ↦ some id ]

unfoldable pub first_pending_subtask_id : ImplementationPlan → String
unfolding first_pending
first_pending_subtask_id plan = elim (first_pending plan.phases) [ none ↦ "" | some id ↦ id ]

-- The reset of `builtinRecover`: the ids that it resets, in order, and the new subtasks.
unfoldable pub reset_subtasks : List PlanSubtask → List String × List PlanSubtask
unfolding is_recoverable
reset_subtasks [] = ([], [])
reset_subtasks (st ∷ rest) =
    let (ids, rest') = reset_subtasks rest in
    if is_recoverable st.status
    then (st.id ∷ ids, record st { status = "pending" } ∷ rest')
    else (ids, st ∷ rest')

unfoldable pub reset_phases : List PlanPhase → List String × List PlanPhase
unfolding reset_subtasks
reset_phases [] = ([], [])
reset_phases (ph ∷ rest) =
    let (ids, subtasks) = reset_subtasks ph.subtasks in
    let (ids', rest') = reset_phases rest in
    (ids ++ ids', record ph { subtasks = subtasks } ∷ rest')

-- The inner loop of `builtinSkipToPhase`: every subtask that is not done is completed, and counted.
unfoldable pub complete_all : List PlanSubtask → ℕ × List PlanSubtask
unfolding is_done
complete_all [] = (0, [])
complete_all (st ∷ rest) =
    let (skipped, rest') = complete_all rest in
    if is_done st.status
    then (skipped, st ∷ rest')
    else (skipped + 1, record st { status = "completed" } ∷ rest')

-- The number of a phase: its own, or its place from 1 where it has none.
unfoldable pub phase_number : ℕ → PlanPhase → ℕ
phase_number i ph = if nat_eq ph.phase 0 then i + 1 else ph.phase

-- What the outer loop has gathered: whether the target was met, its name, and the count.
pub record Skip : Type 0 where
  pub found : Bool
  pub target_name : String
  pub skipped : ℕ

-- One round of the loop: what it gathers, and the phase after it.
unfoldable pub skip_visit : ℕ → ℕ → PlanPhase → Skip → Skip
unfolding complete_all
skip_visit target num ph s =
    let met : Skip =
      if nat_eq num target then record s { found = true; target_name = ph.name } else s in
    if ltb num target
    then record met { skipped = met.skipped + (complete_all ph.subtasks).0 }
    else met

unfoldable pub skip_phase : ℕ → ℕ → PlanPhase → PlanPhase
unfolding complete_all
skip_phase target num ph =
    if ltb num target then record ph { subtasks = (complete_all ph.subtasks).1 } else ph

unfoldable pub skip_phases : ℕ → ℕ → List PlanPhase → Skip → Skip × List PlanPhase
unfolding phase_number skip_visit skip_phase
skip_phases target i [] s = (s, [])
skip_phases target i (ph ∷ rest) s =
    let num = phase_number i ph in
    let (out, rest') = skip_phases target (suc i) rest (skip_visit target num ph s) in
    (out, skip_phase target num ph ∷ rest')

-- The column after a skip. The last loop reads a phase's own number only.
unfoldable pub skip_column : ℕ → List PlanPhase → String → String
skip_column target [] to = to
skip_column target (ph ∷ rest) to =
    let to₁ = if nat_eq ph.phase target && ph.type == "review" then "review" else to in
    let to₂ = if nat_eq ph.phase target && ph.type == "planning" then "queue" else to₁ in
    skip_column target rest to₂

-- `hasPendingCodingSubtasks`.
unfoldable pub any_open : List PlanSubtask → Bool
any_open [] = false
any_open (st ∷ rest) =
    if st.status == "completed" || st.status == "stuck" then any_open rest else true

unfoldable pub has_pending_coding : List PlanPhase → Bool
unfolding any_open
has_pending_coding [] = false
has_pending_coding (ph ∷ rest) =
    if ph.type == "coding" && any_open ph.subtasks then true else has_pending_coding rest
