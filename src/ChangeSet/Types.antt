-- ===== src/ChangeSet/Types.antt =====
-- delivery_changes.go: the change set and its entries.
use opm_api.Prelude.{String, Bool, Option, List}
use opm_api.Models.{Time}

pub record FileChange : Type 0 where
  pub path : String
  pub contents : Option String
  pub patch : String
  pub delete : Bool

pub record ChangeSet : Type 0 where
  pub run_id : String
  pub source : String
  pub model : String
  pub commit_message : String
  pub recorded_at : Time
  pub files : List FileChange
  pub note : String
