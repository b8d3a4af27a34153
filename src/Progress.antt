-- ===== src/Progress.antt =====
-- The progress of a document's latest job (backend/app/services/job_progress.py).
-- Counts and page numbers are natural numbers.
mod Model
pub mod Percent
pub mod Pages
mod Samples
pub use Model.*
