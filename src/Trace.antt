-- ===== src/Trace.antt =====
-- The trace of a request on its way to the database.
pub mod Writer
pub mod Timeline
