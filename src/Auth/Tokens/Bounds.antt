-- ===== src/Auth/Tokens/Bounds.antt =====
-- The ends of sign-ins in `TokenStore` of auth.py, over histories of calls and restarts.
pub mod Inv
pub mod Store
pub mod Oauth
pub mod Startup
pub mod Runs
