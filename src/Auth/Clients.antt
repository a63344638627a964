-- ===== src/Auth/Clients.antt =====
-- `ClientStore` of auth.py: the client file, reloads, and second factors.
pub mod Types
pub mod File
pub mod Store
pub mod Totp
pub mod Cascade
pub mod Reload
mod Tests
