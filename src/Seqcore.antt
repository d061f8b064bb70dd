-- ===== src/Seqcore.antt =====
-- engine/seqcore: the sequential Setup and Countdown state machine over one stream of bars.
pub mod Types
pub mod Engine
pub mod Phases
pub mod Step
pub mod Checkpoint
pub mod Refusals
pub mod Refused
pub mod Invariant
pub mod Events
pub mod SetupRun
pub mod Gap
pub mod Restore
pub mod Closure
pub mod Run
mod Tests
