-- ===== src/Conclusion.antt =====
-- Knowledge conclusion runs: app/application/knowledge_conclusion/run_service.py on top of
-- app/adapters/postgres/knowledge_conclusion_repository.py.
pub mod Repository
pub mod Service
pub mod Growth
pub mod Write
pub mod Concurrent
pub mod Evolution
pub mod Replay
pub mod Repeat
mod Tests
