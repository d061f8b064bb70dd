-- ===== src/FrozenLevels.antt =====
-- engine/frozenlevels: causal level, window, calendar and lock primitives.
pub mod Prices
pub mod Types
pub mod Level
pub mod Calendar
pub mod Windows
pub mod Pivots
pub mod Scale
pub mod Lock
mod Tests
