-- ===== src/FrozenLevels/Level.antt =====
-- The life of one level: engine/frozenlevels/level_lifecycle.go and entry_admission.go.
pub mod Lifecycle
pub mod Invariant
pub mod Moves
pub mod Calls
