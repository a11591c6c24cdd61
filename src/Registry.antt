-- ===== src/Registry.antt =====
-- backend/registry.py: which model version of a run is served, and what it had to beat.
pub mod Decimal
pub mod Rules
pub mod Suffixes
pub mod Margin
pub mod Serving
pub mod History
unfoldable pub use Rules.*
