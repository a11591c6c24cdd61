-- ===== src/Retraining.antt =====
-- The retraining of a run, backend/retraining.py.
pub mod Refit
pub mod Steps
pub mod Names
pub mod Served
pub mod Decision
pub mod Candidates
