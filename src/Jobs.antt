-- ===== src/Jobs.antt =====
-- The durable job queue: storage/repositories/job_repository.py and workers/job_worker.py.
pub mod Task
pub mod Claim
pub mod Finish
pub mod Order
pub mod Lease
pub mod Invariant
pub mod Worker
pub mod History
pub mod Idempotent
pub mod Outcome
mod Tests
