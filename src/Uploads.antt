-- ===== src/Uploads.antt =====
-- Bounded uploads: backend/utils/uploads.py.
pub mod Reading
pub mod Caps
