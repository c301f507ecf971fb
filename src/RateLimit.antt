-- ===== src/RateLimit.antt =====
-- backend/app/ratelimit.py: who a caller is (Identity), the fixed-window counter (Limiter) and the
-- route dependency that joins them.
pub mod Identity
pub mod Spoofing
pub mod Limiter
pub mod Window
