-- ===== src/Reports.antt =====
-- Scheduled reports (backend/report_schedule.py).
pub mod Calls
pub mod Ticks
pub mod Drain
unfoldable pub use Calls.*
