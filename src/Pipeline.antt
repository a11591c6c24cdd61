-- ===== src/Pipeline.antt =====
-- The training of an uploaded dataset: the job that backend/routes/upload.py runs.
pub mod Work
pub mod Lab
pub mod Parts
pub mod Body
pub mod Keeps
pub mod Ends
pub mod Registers
