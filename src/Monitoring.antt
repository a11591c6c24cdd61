-- ===== src/Monitoring.antt =====
-- What is watched of a model that is served: backend/ml/drift.py and backend/monitoring.py.
pub mod Drift
pub mod Verdicts
pub mod Watch
pub mod Sampling
pub mod Logged
pub mod Advice
