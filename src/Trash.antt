-- ===== src/Trash.antt =====
-- The trash: soft deletion, restoring and wiping of documents
-- (backend/app/services/document_deletion.py).
mod Model
mod Rows
mod Ops
pub mod Links
pub mod Charged
pub mod Steps
pub mod Restoring
pub mod RoundTrip
pub mod Purge
mod Samples
pub use Model.*
pub use Rows.*
pub use Ops.*
