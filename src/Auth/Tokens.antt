-- ===== src/Auth/Tokens.antt =====
-- `TokenStore` of auth.py: bearers, OAuth access tokens, refresh tokens and the SQLite file.
pub mod Types
pub mod Store
pub mod Oauth
pub mod Startup
pub mod Calls
pub mod Bounds
pub mod Cap
pub mod Lookups
pub mod Reuse
pub mod Rotation
pub mod Revocation
pub mod Prune
mod Tests
mod Histories
