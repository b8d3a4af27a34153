-- ===== src/Batches.antt =====
-- Upload batches, and announcing each of them once when its files are done
-- (backend/app/services/batch_notifications.py and its endpoints in
-- backend/app/api/v1/endpoints/documents.py).
mod Model
mod Ops
pub mod Detection
pub mod Rows
pub mod Steps
pub mod Requests
pub mod Announcing
pub mod Leases
mod Samples
pub use Model.*
pub use Ops.*
