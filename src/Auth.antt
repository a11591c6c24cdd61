-- ===== src/Auth.antt =====
-- Authentication and per-account isolation (backend/auth.py), and the key handlers of
-- backend/routes/admin.py.
pub mod Principals
pub mod Keys
pub mod Admission
pub mod Revocation
pub mod KeyCounts
unfoldable pub use Principals.*
unfoldable pub use Keys.*
