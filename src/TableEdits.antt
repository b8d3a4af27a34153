-- ===== src/TableEdits.antt =====
-- The table edits that a user asks for (backend/app/services/table_edit.py), over the operations of
-- Tables.
mod Model
pub mod Candidates
mod Samples
pub use Model.*
