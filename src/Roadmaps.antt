-- ===== src/Roadmaps.antt =====
-- The roadmap of a project: its phases and features, and what the runs put there.
pub mod Phases
pub mod Features
pub mod Discovering
pub mod Proposing
use opm_api.Prelude.{
  ℕ, ◌+◌, String, Bool, true, false, not, ◌&&◌, Option, none, some, List, [], ◌∷◌, ◌<>◌, ◌==◌,
  is_empty, length, show, nz, join, contains, trim_space, to_lower, truncate_runes, if◌then◌else◌,
}
use opm_api.Models.{RoadmapPhase, RoadmapFeature, Roadmap}

-- `strings.ToLower(strings.TrimSpace(s))`: titles and names are compared by it.
unfoldable pub key_of : String → String
unfolding to_lower trim_space
key_of s = to_lower (trim_space s)

-- `validateRoadmapJSON` of roadmap_competitor.go.

-- The number of the first phase without a name, counted from `i`.
unfoldable pub first_unnamed : ℕ → List RoadmapPhase → Option ℕ
unfolding trim_space
first_unnamed i [] = none
first_unnamed i (p ∷ ps) =
    let later = first_unnamed (i + 1) ps in if trim_space p.name == "" then some i else later

-- `pid != "" && !known[pid]`, where only ids that are not blank are known.
unfoldable pub is_known : String → List RoadmapPhase → Bool
unfolding trim_space
is_known pid [] = false
is_known pid (p ∷ ps) = if trim_space p.id == pid then true else is_known pid ps

unfoldable pub is_dangling : List RoadmapPhase → RoadmapFeature → Bool
unfolding is_known trim_space
is_dangling phases f =
    let pid = trim_space f.phase_id in not (pid == "") && not (is_known pid phases)

unfoldable pub dangling : List RoadmapPhase → List RoadmapFeature → List String
unfolding is_dangling
dangling phases [] = []
dangling phases (f ∷ fs) =
    let rest = dangling phases fs in
    if is_dangling phases f then (nz f.title f.id <> "→" <> trim_space f.phase_id) ∷ rest else rest

-- The error, or nil.
unfoldable pub validate_roadmap_json : Roadmap → Option String
unfolding first_unnamed dangling
validate_roadmap_json rm =
    if is_empty rm.phases
    then some "roadmap has no phases; the board would render as empty"
    else elim (first_unnamed 1 rm.phases) [
      | some i ↦ some ("phase " <> show i <> " has no name")
      | none ↦
          let rows = dangling rm.phases rm.features in
          if is_empty rows
          then none
          else some (
              show (length rows)
              <> " feature(s) reference an unknown phase: "
              <> truncate_runes (join ", " rows) 160)
    ]
