-- ===== src/Jobs.antt =====
-- Upload and training jobs: `JobRecord` and the job helpers of backend/db.py. The table is the
-- list of its rows; each helper is one transaction, and takes the moment at which it runs.
pub mod Records
pub mod History
pub mod Ownership
pub mod Recovery
unfoldable pub use Records.*
