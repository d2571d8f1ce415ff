-- ===== src/Security.antt =====
-- tessera/utils/security.py: login rate limiting and lockout, tokens and the password reset.
pub mod RateLimit
pub mod Tokens
pub mod Reset
