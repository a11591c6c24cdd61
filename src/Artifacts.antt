-- ===== src/Artifacts.antt =====
-- The model artifacts of backend/utils/artifacts.py: written with a signature, and loaded only if
-- the signature is theirs.
pub mod Files
pub mod Signing
pub mod Loading
pub mod RoundTrip
