-- ===== src/Hashing.antt =====
-- `run_cache_key` of backend/utils/hashing.py, under which a run is stored and found again.
pub mod Keys
pub mod Parts
