-- ===== src/Sharing.antt =====
-- Share links as the API grants them (backend/sharing.py). The token that `secrets.token_urlsafe`
-- draws is an argument of the calls.
pub mod Links
pub mod Grants
pub mod Revocation
unfoldable pub use Links.*
