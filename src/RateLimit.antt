-- ===== src/RateLimit.antt =====
-- backend/app/core/rate_limit.py: the sliding-window limiter of one process. Its lock makes each
-- call a step of its own.
pub mod Limiter
pub mod Deque
pub mod Window
pub mod Admission
pub mod Capacity
pub mod Served
pub mod Retry
mod Tests
