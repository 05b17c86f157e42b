-- ===== src/Store.antt =====
-- The methods of `Store` on tasks, plans and progress. `now` is what `nowUTC` answers, `uuid` what
-- `uuid.NewString` answers.
pub mod SpecIds
pub mod Tasks
pub mod View
pub mod Writes
pub mod Moving
pub mod Creating
pub mod Jobs
pub mod Agreement
pub mod Running
pub mod Offering
pub mod Updating
pub mod Documents
