-- ===== src/Limits.antt =====
-- The process-local fallback of the semaphores: internal/platform/redis.go.
pub mod Semaphore
mod Tests
