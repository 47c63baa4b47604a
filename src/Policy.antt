-- ===== src/Policy.antt =====
-- The deterministic policy engine: engines/policy/models.py, rules.py and engine.py.
pub mod Model
pub mod First
mod FirstBounds
pub mod FirstSafety
pub mod Second
pub mod Contract
pub mod Accepted
mod SecondLimits
pub mod SecondSafety
mod Tests
