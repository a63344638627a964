-- ===== src/Limits.antt =====
-- ratelimit.py: the request limiter and the lockout after wrong second factors.
pub mod Window
pub mod Lockout
