-- ===== src/Uploads.antt =====
-- Resumable uploads (backend/app/api/v1/endpoints/uploads.py and
-- backend/app/services/upload_sessions.py).
mod Model
mod Chunks
mod Finalize
mod Sessions
mod Deletion
pub mod Starting
pub mod Aborting
pub mod Sweep
pub mod Confirmed
pub mod Assembly
pub mod Committed
pub mod Once
pub mod Refusals
pub mod Put
pub mod Retry
mod Samples
mod FinalizeSamples
mod SessionSamples
pub use Model.*
pub use Chunks.*
pub use Finalize.*
pub use Sessions.*
