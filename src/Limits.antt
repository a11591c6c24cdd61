-- ===== src/Limits.antt =====
-- Per-account ceilings (backend/limits.py).
pub mod Checks
pub mod Ceilings
pub mod Holding
pub mod Burst
unfoldable pub use Checks.*
