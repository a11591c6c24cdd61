-- ===== src/Sandbox.antt =====
-- The execution of generated code: the child of backend/analyst/runner.py, its container
-- (backend/analyst/container.py), and the parent (backend/analyst/sandbox.py).
pub mod Runner
pub mod Container
pub mod Parent
pub mod Envelope
pub mod Outcomes
