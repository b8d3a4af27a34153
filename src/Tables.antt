-- ===== src/Tables.antt =====
-- Tables over several pages: merging, splitting and repacking their parts
-- (packages/yarrow-db/src/yarrow_db/utils/table_utils.py), and the edits that a user asks for
-- (backend/app/services/table_edit.py).
mod Model
mod Ops
mod Whole
pub mod Tiling
pub mod Merging
pub mod Splitting
pub mod Gaps
pub mod Document
mod Samples
unfoldable pub use Model.*
unfoldable pub use Ops.*
unfoldable pub use Whole.*
