-- ===== src/Storage.antt =====
-- Where a run's artifacts are: the local files and the bucket of backend/utils/storage.py.
pub mod Files
pub mod Purging
pub mod Mirror
unfoldable pub use Files.*
