-- ===== src/Backtest.antt =====
-- The book of positions of a backtest: engines/backtest/execution.py.
pub mod Book
pub mod Settlement
pub mod Ledger
pub mod Reconcile
pub mod Orders
pub mod Rebalance
pub mod DayTrades
pub mod Targets
mod OrderTests
mod Tests
