-- ===== src/Seqcore/Invariant.antt =====
-- The invariant of the engine.
pub mod Countdown
pub mod Setup
pub mod Bar
pub mod Stream
pub mod Start
