-- ===== src/Users.antt =====
-- Accounts and API keys (backend/db.py).
pub mod Records
unfoldable pub use Records.*
