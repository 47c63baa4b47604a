-- ===== src/Authorization.antt =====
-- Authorization of execution: app/domain/decision/execution_authorization.py.
pub mod Finalizer
pub mod Issued
mod Tests
