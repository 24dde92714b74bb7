-- ===== src/Audit/Deny.antt =====
-- The refusal of Cyber operations: the gates on a model's decision, the administrators' rules, and the audit of a request.
pub mod Normalize
pub mod Rules
pub mod Grounding
pub mod Model
pub mod Pipeline
mod Tests
