-- ===== src/Reprocess.antt =====
-- Which pages a reprocess run covers and how it is queued
-- (backend/app/services/reprocess.py). Times are seconds; one request reads its clock once.
mod Model
pub mod Pages
pub mod Exclusive
mod Samples
pub use Model.*
