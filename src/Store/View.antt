-- ===== src/Store/View.antt =====
-- What the proofs read of a project's directory: its stored tasks and its board.
use opm_api.Prelude.{String, Option, lookup}
use opm_api.Models.{Board, Task}
use opm_api.World.{World}
use opm_api.World.Layout.{dir}
use opm_api.World.Layout.Laws.{board_or_empty}
use opm_api.Store.Tasks.{spec_or_empty}

-- The task that is stored under a spec id.
abbrev pub stored_task : String → String → World → Option Task
stored_task id spec_id w = (spec_or_empty (lookup spec_id (dir id w).specs)).task

abbrev pub board_of : String → World → Board
board_of id w = board_or_empty (dir id w).board
