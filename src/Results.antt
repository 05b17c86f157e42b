-- ===== src/Results.antt =====
-- model_result.go: what the runner answers.
pub mod Planning
pub mod Implementing
use opm_api.Prelude.{String, Option, List, Dict}
use opm_api.Models.{ImplementationPlan, Json, RoadmapPhase, RoadmapFeature, Idea}
use opm_api.ChangeSet.Types.{FileChange}

-- The fields that the control plane reads. `discovery_blob` is none for nil.
pub record RunnerResult : Type 0 where
  pub mode : String
  pub reason : String
  pub model : String
  pub spec_markdown : String
  pub plan : Option ImplementationPlan
  pub implementation_notes : String
  pub files : List FileChange
  pub commit_message : String
  pub ideas : Dict (List Idea)
  pub vision : String
  pub target_audience : String
  pub phases : List RoadmapPhase
  pub features : List RoadmapFeature
  pub discovery_blob : Option (Dict Json)
  pub competitor : String
  pub raw_excerpt : String
