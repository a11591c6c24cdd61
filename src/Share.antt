-- ===== src/Share.antt =====
-- Share links (backend/db.py, backend/sharing.py).
pub mod Records
unfoldable pub use Records.*
