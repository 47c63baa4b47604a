-- ===== src/Memory.antt =====
-- The lifecycle of memories: engines/memory/evidence.py and lifecycle.py.
pub mod Evidence
pub mod Lifecycle
pub mod Expiry
pub mod Support
mod Tests
