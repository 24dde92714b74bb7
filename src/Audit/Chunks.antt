-- ===== src/Audit/Chunks.antt =====
-- The audit of a text in chunks: internal/platform/audit_long_context.go.
pub mod Split
pub mod Collect
pub mod Rounds
mod Tests
