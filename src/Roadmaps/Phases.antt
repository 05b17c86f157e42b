-- ===== src/Roadmaps/Phases.antt =====
-- `mergeRoadmapPhases` of model_apply.go.
pub mod Laws
use opm_api.Prelude.{
  ℕ, ◌+◌, String, Bool, true, false, ◌||◌, Option, none, some, List, [], ◌∷◌, ◌++◌, ◌==◌, is_empty,
  length, ltb, nat_eq, contains, trim_space, if◌then◌else◌,
}
use opm_api.Models.{RoadmapPhase}
use opm_api.Roadmaps.{key_of}

abbrev pub phase_key : RoadmapPhase → String
phase_key p = key_of p.name

unfoldable pub has_bind : List RoadmapPhase → Bool
has_bind [] = false
has_bind (p ∷ ps) = ltb 0 p.github_milestone_number || has_bind ps

-- `byName[key]`: the last phase of that name.
unfoldable pub by_name : String → List RoadmapPhase → Option RoadmapPhase
by_name key [] = none
by_name key (p ∷ ps) = elim (by_name key ps) [
  | some q ↦ some q
  | none ↦ if phase_key p == key then some p else none
]

abbrev pub or_default : String → String → String
or_default s d = if s == "" then d else s

abbrev pub order_or : ℕ → ℕ → ℕ
order_or order i = if nat_eq order 0 then i else order

-- A phase of the run's result, with an id and an order where it has none.
abbrev pub taken_over : String → ℕ → RoadmapPhase → RoadmapPhase
taken_over id order ph = record {
  id = id;
  name = trim_space ph.name;
  description = trim_space ph.description;
  order = order_or ph.order order;
  status = or_default (trim_space ph.status) "planned";
  features = [];
  github_milestone_number = 0;
  github_milestone_title = "";
  github_milestone_url = "";
}

unfoldable pub has_key : String → List RoadmapPhase → Bool
has_key key [] = false
has_key key (p ∷ ps) = phase_key p == key || has_key key ps

abbrev pub refreshed : RoadmapPhase → RoadmapPhase → RoadmapPhase
refreshed ph p = record p {
  description = or_default (trim_space ph.description) p.description;
  order = order_or ph.order p.order;
  status = or_default (trim_space ph.status) p.status;
}

-- `out[idxByName[key]]` is updated: the last phase of that name.
unfoldable pub refresh_last : String → RoadmapPhase → List RoadmapPhase → List RoadmapPhase
unfolding has_key
refresh_last key ph [] = []
refresh_last key ph (p ∷ ps) =
    let later = p ∷ refresh_last key ph ps in
    if has_key key ps then later else if phase_key p == key then refreshed ph p ∷ ps else p ∷ ps

-- `new_id i` is what `shortID("phase")` answers for the entry `i` of the result.
module _ (new_id : ℕ → String) where
  abbrev pub id_of : ℕ → RoadmapPhase → Option RoadmapPhase → String
  id_of i ph prev =
      let own = trim_space ph.id in
      let kept = if own == "" then elim prev [ none ↦ "" | some q ↦ q.id ] else own in
      or_default kept (new_id i)

  -- The first loop, for a roadmap of which no phase is bound to a milestone.
  unfoldable pub fresh_phases :
      List RoadmapPhase → ℕ → List String → List RoadmapPhase → List RoadmapPhase
  unfolding key_of trim_space by_name
  fresh_phases existing i seen [] = []
  fresh_phases existing i seen (ph ∷ rest) =
      let key = key_of ph.name in
      let dropped = fresh_phases existing (i + 1) seen rest in
      let kept = fresh_phases existing (i + 1) (key ∷ seen) rest in
      if trim_space ph.name == "" || contains seen key
      then dropped
      else taken_over (id_of i ph (by_name key existing)) (i + 1) ph ∷ kept

  -- What one entry does to the phases.
  unfoldable pub merge_phase : ℕ → RoadmapPhase → List RoadmapPhase → List RoadmapPhase
  unfolding refresh_last has_key
  merge_phase i ph out =
      if trim_space ph.name == ""
      then out
      else if has_key (key_of ph.name) out
      then refresh_last (key_of ph.name) ph out
      else out ++ taken_over (id_of i ph none) (length out + 1) ph ∷ []

  -- The second loop.
  unfoldable pub merge_bound : ℕ → List RoadmapPhase → List RoadmapPhase → List RoadmapPhase
  unfolding merge_phase
  merge_bound i [] out = out
  merge_bound i (ph ∷ rest) out = merge_bound (i + 1) rest (merge_phase i ph out)

  unfoldable pub merge_roadmap_phases : List RoadmapPhase → List RoadmapPhase → List RoadmapPhase
  unfolding has_bind fresh_phases merge_bound
  merge_roadmap_phases existing incoming =
      let fresh = fresh_phases existing 0 [] incoming in
      if is_empty incoming
      then existing
      else if has_bind existing || is_empty fresh
      then merge_bound 0 incoming existing
      else fresh
