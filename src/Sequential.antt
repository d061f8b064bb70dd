-- ===== src/Sequential.antt =====
-- engine/sequential_execution.go: the scheduler that turns the events of the count engine
-- (engine/seqcore) into positions of the broker.
pub mod Types
pub mod Fill
pub mod Atr
pub mod Scheduler
pub mod Run
pub mod Waiting
pub mod Holding
pub mod Accepting
pub mod Taking
pub mod Validity
pub mod Start
pub mod Resolution
pub mod Market
pub mod MarketChecks
pub mod MarketRun
mod Tests
