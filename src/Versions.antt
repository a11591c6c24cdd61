-- ===== src/Versions.antt =====
-- Model versions (backend/db.py) and the registry that decides which of them is served
-- (backend/registry.py).
pub mod Records
pub mod Champions
unfoldable pub use Records.*
