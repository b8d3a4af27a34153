-- ===== src/ReadingOrder.antt =====
-- The reading order of a page's blocks (worker/app/pipeline/reading_order.py).
mod Blocks
mod Order
pub mod Buckets
pub mod Permutes
mod Samples
pub use Blocks.*
pub use Order.*
