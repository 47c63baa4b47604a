-- ===== src/Gateway.antt =====
-- Calls of model providers: app/model_gateway/circuit_breaker.py and app/model_gateway/retry.py.
pub mod Breaker
pub mod Retry
pub mod Budget
pub mod Complete
pub mod Spending
pub mod Fallback
mod Tests
mod CompleteTests
