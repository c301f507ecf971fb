-- ===== src/Http.antt =====
-- backend/app/main.py and backend/app/idempotency.py: the middlewares around every request.
pub mod Message
pub mod ClientIp
pub mod Caching
pub mod Idempotency
pub mod Context
