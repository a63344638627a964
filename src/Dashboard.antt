-- ===== src/Dashboard.antt =====
-- The stores behind the web dashboard, in dashboard/.
pub mod Slugs
pub mod Usage
pub mod Confirmations
pub mod Sessions
pub mod Passkeys
mod Tests
