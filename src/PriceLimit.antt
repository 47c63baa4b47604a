-- ===== src/PriceLimit.antt =====
-- Daily price limits: engines/market/price_limit_rules.py, and the prices and tests of
-- engines/backtest/execution.py that stand on them.
pub mod Rules
pub mod Prices
pub mod Band
mod Tests
