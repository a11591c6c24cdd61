-- ===== src/Schedules.antt =====
-- Report schedules (backend/db.py, backend/report_schedule.py).
pub mod Records
unfoldable pub use Records.*
