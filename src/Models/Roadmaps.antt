-- ===== src/Models/Roadmaps.antt =====
-- models.go: the roadmap and the ideas of a project.
use opm_api.Prelude.{ℕ, String, Bool, List, [], ◌∷◌, Dict}

-- A value of `any`, as `encoding/json` reads it.
mutual
  pub data Json : Type 0 where
    null : Json
    bool : Bool → Json
    num : ℕ → Json
    str : String → Json
    arr : Items → Json
    obj : Fields → Json

  pub data Items : Type 0 where
    nil : Items
    cons : Json → Items → Items

  pub data Fields : Type 0 where
    end : Fields
    field : String → Json → Fields → Fields

pub record RoadmapPhase : Type 0 where
  pub id : String
  pub name : String
  pub description : String
  pub order : ℕ
  pub status : String
  pub features : List String
  pub github_milestone_number : ℕ
  pub github_milestone_title : String
  pub github_milestone_url : String

pub record RoadmapFeature : Type 0 where
  pub id : String
  pub title : String
  pub description : String
  pub rationale : String
  pub priority : String
  pub complexity : String
  pub impact : String
  pub phase_id : String
  pub dependencies : List String
  pub status : String
  pub acceptance_criteria : List String
  pub user_stories : List String
  pub github_milestone_number : ℕ
  pub github_milestone_title : String
  pub github_milestone_url : String
  pub github_project_id : String
  pub github_project_item_id : String

pub record Roadmap : Type 0 where
  pub id : String
  pub project_name : String
  pub version : String
  pub vision : String
  pub target_audience : String
  pub phases : List RoadmapPhase
  pub features : List RoadmapFeature
  pub metadata : Dict Json

pub record Idea : Type 0 where
  pub id : String
  pub type : String
  pub title : String
  pub description : String
  pub rationale : String
  pub estimated_effort : String
  pub affected_files : List String
  pub implementation_approach : String
  pub status : String
  pub created_at : String

-- The ideas under each type key.
abbrev pub Ideation : Type 0
Ideation = Dict (List Idea)

abbrev pub ideation_types : List String
ideation_types =
    "code_improvements" ∷ "security" ∷ "performance" ∷ "documentation" ∷ "ui_ux" ∷ "code_quality"
    ∷ []

unfoldable pub empty_ideation : Ideation
empty_ideation =
    ("code_improvements", [])
    ∷ ("security", [])
    ∷ ("performance", [])
    ∷ ("documentation", [])
    ∷ ("ui_ux", [])
    ∷ ("code_quality", [])
    ∷ []
