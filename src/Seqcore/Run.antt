-- ===== src/Seqcore/Run.antt =====
-- Whole runs of the engine.
pub mod Total
pub mod Steps
