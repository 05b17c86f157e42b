-- ===== src/Tests.antt =====
-- The examples: a small data directory, and the properties at concrete inputs on it.
mod Demo
mod Plans
mod Boards
mod Stores
mod Runners
mod Approvals
mod ChangeSets
mod Endpoints
mod Registries
mod Drags
mod Planners
mod Deliveries
mod RoadmapRuns
mod Executions
