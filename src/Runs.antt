-- ===== src/Runs.antt =====
-- The state machines of a formal decision (app/domain/decision/run.py) and of a knowledge
-- conclusion (app/domain/knowledge_conclusion_run.py).
pub mod Decision
pub mod Knowledge
mod Tests
