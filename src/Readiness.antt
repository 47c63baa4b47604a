-- ===== src/Readiness.antt =====
-- Readiness for formal decisions: app/application/readiness/service.py, with the statuses of
-- app/ports/upstream_capabilities.py and the policy of app/application/readiness/formal_policy.py.
pub mod Service
pub mod Verified
mod Tests
