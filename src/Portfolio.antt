-- ===== src/Portfolio.antt =====
-- The construction of a portfolio: engines/portfolio/pipeline.py.
pub mod State
pub mod Target
pub mod Limits
pub mod Turnover
mod Sums
mod Cuts
pub mod Caps
pub mod Trades
mod Tests
