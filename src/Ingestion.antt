-- ===== src/Ingestion.antt =====
-- The worker's task on a document: its transactions, in between which users cancel and delete
-- (worker/app/tasks/ingestion.py).
mod Model
mod Ops
mod Saving
pub mod Canceled
pub mod Pages
pub mod Counted
mod Task
pub mod Fair
pub mod Post
pub mod Ends
mod Samples
pub use Model.*
pub use Ops.*
pub use Saving.*
pub use Task.*
