-- ===== src/Auth.antt =====
-- auth.py: the stores behind the OAuth endpoints.
pub mod Tokens
pub mod Codes
pub mod Clients
