-- ===== src/Scheduling.antt =====
-- engine/window.go and engine/entry_scheduler.go: the execution window, and the chart bars on which
-- source events are dispatched.
pub mod Window
pub mod Schedule
pub mod Resolve
pub mod Causal
mod Tests
