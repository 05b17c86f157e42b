-- ===== src/Models.antt =====
-- models.go: the records that the API stores as JSON, and their defaults. A `time.Time` is a
-- number, 0 for the zero time; a pointer is an `Option`.
mod Projects
mod Tasks
mod Plans
mod Jobs
mod Roadmaps
unfoldable pub use Projects.*
unfoldable pub use Tasks.*
unfoldable pub use Plans.*
unfoldable pub use Jobs.*
unfoldable pub use Roadmaps.*
