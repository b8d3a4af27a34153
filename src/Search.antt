-- ===== src/Search.antt =====
-- Matching the words of a search query in texts that OCR may have misread
-- (backend/app/services/search_query.py).
mod Edit
mod Parse
pub mod Terms
pub mod OneEdit
pub mod Distance
pub mod Filled
pub mod Within
mod Samples
pub use Edit.*
pub use Parse.*
