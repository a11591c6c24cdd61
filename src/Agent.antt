-- ===== src/Agent.antt =====
-- The analyst's question loop and its context budget (backend/analyst/agent.py, the turns of
-- backend/analyst/providers.py).
pub mod Loop
pub mod Bounds
pub mod Trim
unfoldable pub use Loop.*
