-- ===== src/Lifecycle.antt =====
-- Retention and erasure (backend/lifecycle.py), and the deletion of one run
-- (backend/routes/runs.py).
pub mod Purge
pub mod Traces
pub mod Others
pub mod Erased
pub mod Account
pub mod Kept
pub mod Request
pub mod Requested
unfoldable pub use Purge.*
