-- ===== src/Limits.antt =====
-- Limits on requests: the rate limiter (backend/app/core/rate_limit.py).
pub mod Limiter
pub mod Window
mod Tests
