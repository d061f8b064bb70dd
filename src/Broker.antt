-- ===== src/Broker.antt =====
-- engine/broker.go and what it calls: positions, orders and trades on one series of candles, with
-- the raw accounting of engine/sequential_accounting.go.
pub mod Types
pub mod Ledger
pub mod Execution
pub mod Scheduled
pub mod Exposure
pub mod Run
pub mod Chain
pub mod Agreement
pub mod Settlement
pub mod Accounts
pub mod Bracket
pub mod TestMath
mod Tests
