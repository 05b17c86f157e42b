-- ===== src/World.antt =====
-- The data directory that store.go keeps, and the operations on it as actions that may fail.
pub mod Layout
pub mod Steps
pub mod Ready
use opm_api.Prelude.{
  ℕ, String, Bool, Option, none, some, List, Dict, Result, ok, err, update, if◌then◌else◌,
}
use opm_api.Models.{
  Time, Project, Board, ProjectStatus, Task, ImplementationPlan, TaskProgress, Job, Roadmap,
  Ideation,
}
use opm_api.ChangeSet.Types.{ChangeSet}

-- What is written with one call; `dirs` is the making of a directory.
pub data File : Type 0 where
  registry dirs board status roadmap ideation changelog task plan progress spec_md review_state
        changes notes run log :
      File

-- The directory `specs/<specId>`. Of `review_state.json` only the Boolean field `approved` is read.
-- `logs` has the text of each phase's log.
pub record SpecDir : Type 0 where
  pub task : Option Task
  pub plan : Option ImplementationPlan
  pub progress : Option TaskProgress
  pub spec_md : Option String
  pub approved : Option Bool
  pub changes : Option ChangeSet
  pub notes : Option String
  pub logs : String → String

-- The directory `projects/<id>`, with `specs` and `runs` by their entries' names.
pub record ProjectDir : Type 0 where
  pub board : Option Board
  pub status : Option ProjectStatus
  pub roadmap : Option Roadmap
  pub ideation : Option Ideation
  pub changelog : Option String
  pub specs : Dict SpecDir
  pub runs : Dict Job
  pub logs : String → String

-- The whole directory. `writable` tells which kinds of files can be written: a write fails or
-- succeeds by it alone.
pub record World : Type 0 where
  pub registry : List Project
  pub projects : String → ProjectDir
  pub writable : File → Bool

-- A method of `Store`: it reads and writes the directory and returns a value or an error.
abbrev pub Op : Type 0 → Type 0
Op A = World → Result A × World

-- The result of a method that returns only an error.
abbrev pub Done : Type 0
Done = Unit {0}

module _ {A : Type 0} where
  abbrev pub pure : A → Op A
  pure a w = (ok a, w)

  abbrev pub fail : String → Op A
  fail e w = (err e, w)

module _ {A B : Type 0} where
  abbrev pub continue : Result A → (A → Op B) → Op B
  continue (ok a) f w = f a w
  continue (err e) f w = (err e, w)

  infixl 10 ◌>>=◌ ◌>>◌
  unfoldable pub ◌>>=◌ : Op A → (A → Op B) → Op B
  ◌>>=◌ m f w = let (r, w') = m w in continue r f w'

  abbrev pub ◌>>◌ : Op A → Op B → Op B
  m >> n = m >>= λ _. n

-- `_ = op`: the error is dropped, and what was done stays done.
unfoldable pub ignore : {A : Type 0} → Op A → Op Done
ignore m w = (ok tt, (m w).1)

-- `v, _ := op`: the zero value in place of an error.
unfoldable pub value_or : {A : Type 0} → A → Op A → Op A
value_or d m w = let (r, w') = m w in (elim r [ ok a ↦ ok a | err _ ↦ ok d ], w')

-- `v, err := op`, where the code goes on by whether there was an error.
unfoldable pub attempt : {A : Type 0} → Op A → Op (Option A)
attempt m w = let (r, w') = m w in (elim r [ ok a ↦ ok (some a) | err _ ↦ ok none ], w')

-- `err := op`, where the code goes on with the error itself.
unfoldable pub try : {A : Type 0} → Op A → Op (Result A)
try m w = let (r, w') = m w in (ok r, w')

abbrev pub write_failed : String
write_failed = "write failed"

-- One write below `projects/<id>`.
unfoldable pub write : File → String → (ProjectDir → ProjectDir) → Op Done
write f id change w =
    if w.writable f
    then (ok tt, record w { projects = update w.projects id (change (w.projects id)) })
    else (err write_failed, w)

unfoldable pub write_registry : List Project → Op Done
write_registry ps w =
    if w.writable registry then (ok tt, record w { registry = ps }) else (err write_failed, w)
